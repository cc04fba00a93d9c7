-- ===== src/Trainer/Control.antt =====
-- dagger/trainer/control.py: the trainer's end of the control socket. What the socket has at a
-- poll is the argument of `poll`; the replies that went out are kept in `sent`.
use apollo_mavis_v2_runtime.Prelude.{
  ℕ, ℤ, Bool, true, false, List, [], ◌∷◌, ◌++◌, Option, none, some, if◌then◌else◌,
}

pub data Request : Type 0 where
  ask_status : Request
  submit_episode : ℕ → ℤ → ℕ → Request  -- path, episode index and episode id
  train_now : Request
  roll_back : Option ℤ → Request  -- the version, `none` where `int` of it raises
  stop : Request
  unknown : Request

-- At one poll: no message in time, one that is no JSON, JSON that is no object, or a request.
pub data Received : Type 0 where
  nothing garbled no_object : Received
  message : Request → Received

pub data TrainerPhase : Type 0 where
  starting idle training : TrainerPhase

-- `mean_loss` of a burst: a fraction, or not a number.
abbrev pub Loss : Type 0
Loss = Option (ℕ × ℕ)

pub record TrainerStatus : Type 0 where
  pub state : TrainerPhase
  pub steps_total : ℕ
  pub last_burst_loss : Option Loss
  pub last_checkpoint_version : Option ℕ
  pub last_checkpoint_ts : Option ℕ
  pub new_label_frames : ℕ

pub data Reply : Type 0 where
  status_is : TrainerStatus → Reply
  failed : Reply
  labels_now : ℕ → Reply
  is_ok : Bool → Reply
  unknown_cmd : Reply

pub record ControlEndpoint : Type 0 where
  pub pending : Bool
  pub sent : List Reply

abbrev pub init : ControlEndpoint
init = record { pending = false; sent = [] }

abbrev pub received : ControlEndpoint → Received → ControlEndpoint × Option Request
received c nothing = (c, none)
received c garbled = (c, none)
received c no_object = (record c { pending = true }, some unknown)
received c (message req) = (record c { pending = true }, some req)

-- A poll before the last request has its reply raises.
unfoldable pub poll : ControlEndpoint → Received → Option (ControlEndpoint × Option Request)
poll c r = if c.pending then none else some (received c r)

-- The flag is cleared whether or not the socket takes the reply.
unfoldable pub reply : ControlEndpoint → Reply → Bool → ControlEndpoint
reply c payload sends =
    if c.pending
    then record { pending = false; sent = if sends then c.sent ++ payload ∷ [] else c.sent }
    else c
