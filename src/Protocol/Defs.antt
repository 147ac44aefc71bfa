-- ===== src/Protocol/Defs.antt =====
-- crates/cluster-core/src/protocol.rs. Bytes are numbers below 256. The encoding of a message is
-- postcard's, a parameter of `encode_frame` and `decode_frame`.
use Prim.Native.Nat.{bit_xor, bit_or}
use gavel.Shared.{
  ℕ, ◌+◌, ◌*◌, ◌/◌, ◌%◌, Bool, true, false, ◌&&◌, Option, none, some, List, [], ◌∷◌, ◌++◌, String,
  Result, ok, err, ltb, ◌==◌, if◌then◌else◌, length,
}
use gavel.Job.Spec.{TaskSpec}
use gavel.Job.Machine.{TaskOutcome}
use gavel.Node.Defs.{NodeCapabilities, Heartbeat}

abbrev pub Bytes : Type 0
Bytes = List ℕ

abbrev pub protocol_version : ℕ
protocol_version = 4

abbrev pub max_token : ℕ
max_token = 256

abbrev pub max_frame : ℕ
max_frame = 262144

abbrev pub max_artifact : ℕ
max_artifact = 261120

pub record Artifact : Type 0 where
  pub bytes : Bytes
  pub digest : ℕ

-- The loop of `digest`: FNV-1a over 64 bits.
unfoldable pub digest_from : ℕ → Bytes → ℕ
digest_from hash [] = hash
digest_from hash (byte ∷ rest) =
    digest_from ((bit_xor hash byte * 1099511628211) % 18446744073709551616) rest

unfoldable pub digest : Bytes → ℕ
unfolding digest_from
digest bytes = digest_from 14695981039346656037 bytes

unfoldable pub new_artifact : Bytes → Artifact
new_artifact bytes = record { bytes = bytes; digest = digest bytes }

unfoldable pub verify : Artifact → Option Bytes
verify a = if digest a.bytes == a.digest then some a.bytes else none

pub data WireTaskSpec : Type 0 where
  sleep : (millis : ℕ) → WireTaskSpec
  primes : (start stop : ℕ) → WireTaskSpec
  analysis : (version algorithm partition : ℕ) (input : Artifact) → WireTaskSpec

pub data RejectReason : Type 0 where
  protocol_mismatch unknown_node already_connected full unauthorized : RejectReason

pub data NodeMessage : Type 0 where
  hello :
      (protocol : ℕ) (node : Option ℕ) (capabilities : NodeCapabilities) (token : Option String)
      → NodeMessage
  heartbeat : Heartbeat → NodeMessage
  task_produced : (task : ℕ) (artifact : Artifact) → NodeMessage
  task_started : (task : ℕ) → NodeMessage
  task_finished : (task : ℕ) (outcome : TaskOutcome) → NodeMessage

pub data SupervisorMessage : Type 0 where
  welcome : (protocol node heartbeat_interval_ms : ℕ) → SupervisorMessage
  rejected : (reason : RejectReason) → SupervisorMessage
  assign : (task : ℕ) (spec : WireTaskSpec) → SupervisorMessage
  pause_heartbeat : Bool → SupervisorMessage
  inject_failures : ℕ → SupervisorMessage
  set_delay : ℕ → SupervisorMessage
  shutdown : SupervisorMessage

pub data Unshippable : Type 0 where
  input_gone : Unshippable
  too_large : (bytes : ℕ) → Unshippable

pub record NotShippable : Type 0 where
  pub kind : String
  pub why : Unshippable

-- The arm of `WireTaskSpec::of` for an analysis.
unfoldable pub ship_analysis : ℕ → ℕ → ℕ → Option Bytes → Result NotShippable WireTaskSpec
ship_analysis version algorithm partition none =
    err (record { kind = "analysis"; why = input_gone })
ship_analysis version algorithm partition (some bytes) =
    if ltb max_artifact (length bytes)
    then err (record { kind = "analysis"; why = too_large (length bytes) })
    else ok (WireTaskSpec.analysis version algorithm partition (new_artifact bytes))

-- `WireTaskSpec::of`.
unfoldable pub of_task : TaskSpec → Option Bytes → Result NotShippable WireTaskSpec
unfolding ship_analysis
of_task (TaskSpec.sleep millis) input = ok (WireTaskSpec.sleep millis)
of_task (TaskSpec.primes start stop) input = ok (WireTaskSpec.primes start stop)
of_task (TaskSpec.analysis version algorithm partition) input =
    ship_analysis version algorithm partition input

-- `WireTaskSpec::input`.
unfoldable pub input : WireTaskSpec → Option Bytes
unfolding verify
input (WireTaskSpec.analysis _ _ _ a) = verify a
input _ = some []

-- `TaskSpec::from(&WireTaskSpec)`.
unfoldable pub to_task : WireTaskSpec → TaskSpec
to_task (WireTaskSpec.sleep millis) = TaskSpec.sleep millis
to_task (WireTaskSpec.primes start stop) = TaskSpec.primes start stop
to_task (WireTaskSpec.analysis version algorithm partition _) =
    TaskSpec.analysis version algorithm partition

pub data ProtocolError : Type 0 where
  frame_too_large : (size : ℕ) → ProtocolError
  malformed : ProtocolError

-- The fold of `token_accepted`, over the bytes side by side.
unfoldable pub differences : ℕ → Bytes → Bytes → ℕ
differences acc [] bs = acc
differences acc (a ∷ as') [] = acc
differences acc (a ∷ as') (b ∷ bs) = differences (bit_or acc (bit_xor a b)) as' bs

unfoldable pub token_accepted : Option Bytes → Option Bytes → Bool
unfolding differences
token_accepted none presented = true
token_accepted (some expected) none = false
token_accepted (some expected) (some presented) =
    if ltb max_token (length presented)
    then false
    else length expected == length presented && differences 0 expected presented == 0

-- `u32::to_be_bytes`, after `as u32`.
unfoldable pub to_be_bytes : ℕ → Bytes
to_be_bytes n = (n / 16777216 % 256) ∷ (n / 65536 % 256) ∷ (n / 256 % 256) ∷ (n % 256) ∷ []

-- `u32::from_be_bytes` of the four bytes.
unfoldable pub from_be_bytes : (a b c d : ℕ) → ℕ
from_be_bytes a b c d = a * 16777216 + b * 65536 + c * 256 + d

unfoldable pub frame_len : (a b c d : ℕ) → Result ProtocolError ℕ
unfolding from_be_bytes
frame_len a b c d =
    let size = from_be_bytes a b c d in
    if ltb max_frame size then err (frame_too_large size) else ok size

module _ {ℓ} {T : Type ℓ} where
  -- What is left in `out` when the call returns `Ok`.
  unfoldable pub encode_frame : (T → Option Bytes) → T → Bytes → Result ProtocolError Bytes
  unfolding to_be_bytes
  encode_frame to_allocvec message out = elim (to_allocvec message) [
    | none ↦ err malformed
    | some body ↦
        if ltb max_frame (length body)
        then err (frame_too_large (length body))
        else ok (out ++ (to_be_bytes (length body % 4294967296) ++ body))
  ]

  unfoldable pub decode_frame : (Bytes → Option T) → Bytes → Result ProtocolError T
  decode_frame from_bytes body = elim (from_bytes body) [ none ↦ err malformed | some m ↦ ok m ]
