-- ===== src/Protocol/Frames.antt =====
-- crates/cluster-core/src/protocol.rs: a frame that was written is read back, and a task that was
-- shipped arrives.
use gavel.Shared.{
  ℕ, ◌/◌, ◌%◌, ◌≤◌, ◌<◌, ◌≡◌, refl, inl, inr, Option, none, some, [], ◌∷◌, ◌++◌, Result, ok, err,
  arith, ltb, ==-refl, Bool-cases, Option-cases, length, tests, ◌⊎◌,
}
use gavel.Job.Spec.{TaskSpec}
use gavel.Protocol.Defs.{
  Bytes, max_frame, max_artifact, digest, new_artifact, WireTaskSpec, NotShippable, ship_analysis,
  of_task, input, to_task, ProtocolError, to_be_bytes, from_be_bytes, frame_len, encode_frame,
  decode_frame,
}

-- The prefix holds every length that a frame may have.
prefix_lem :
    (n : ℕ)
    → n < 4294967296
    → from_be_bytes (n / 16777216 % 256) (n / 65536 % 256) (n / 256 % 256) (n % 256) ≡ n
unfolding from_be_bytes
prefix_lem n h = omega arith

frame_len_lem :
    (n : ℕ)
    → n ≤ max_frame
    → let w = n % 4294967296 in
      frame_len (w / 16777216 % 256) (w / 65536 % 256) (w / 256 % 256) (w % 256) ≡ ok n
unfolding frame_len
frame_len_lem n h = ground (arith, prefix_lem (n % 4294967296))

-- How a frame reads: its four bytes of length, and then a body of that length, which is the message.
abbrev pub Reads : {T : Type 0} → (Bytes → Option T) → T → Bytes → Type 0
Reads from_bytes message (a ∷ b ∷ c ∷ d ∷ body) =
    (frame_len a b c d ≡ ok (length body)) × (decode_frame from_bytes body ≡ ok message)
Reads from_bytes message _ = ⊥

-- What `encode_frame` may answer: a refusal, where the codec has no bytes for the message or too
-- many, or the buffer with one frame behind what it held.
abbrev pub Sends :
    {T : Type 0}
    → (T → Option Bytes)
    → (Bytes → Option T)
    → T
    → Bytes
    → Result ProtocolError Bytes
    → Type 0
Sends to_allocvec from_bytes message out (err e) =
    (to_allocvec message ≡ none)
    ⊎ ((body : Bytes) × (to_allocvec message ≡ some body) × (max_frame < length body))
Sends to_allocvec from_bytes message out (ok sent) =
    (frame : Bytes) × (sent ≡ out ++ frame) × Reads from_bytes message frame

module _ {T : Type 0} where
  -- With a codec that reads back the bytes that it wrote: `encode_frame` refuses only a message that
  -- has no bytes or more than the limit, and otherwise it appends one frame, whose length prefix is
  -- accepted and is the length of the body, and whose body decodes to the message.
  pub encode_frame_lem :
      (to_allocvec : T → Option Bytes) (from_bytes : Bytes → Option T)
      → ((message : T) (body : Bytes)
          → to_allocvec message ≡ some body
          → from_bytes body ≡ some message)
      → (message : T) (out : Bytes)
      → Sends to_allocvec from_bytes message out (encode_frame to_allocvec message out)
  unfolding encode_frame to_be_bytes frame_len decode_frame
  encode_frame_lem to_allocvec from_bytes codec message out =
      elim (Option-cases (to_allocvec message)) [
        | inl e ↦ rw (e, encode_frame) (inl e)
        | inr (body, e) ↦ elim (Bool-cases (ltb max_frame (length body))) [
          | inl big ↦ rw (e, big, encode_frame) (inr (body, e, omega tests))
          | inr fits ↦
              rw (e, fits, encode_frame)
                (
                  _,
                  refl,
                  (
                    frame_len_lem (length body) (ground arith),
                    read message body (codec message body e),
                  ),
                )
        ]
      ]
    where
      read :
          (message : T) (body : Bytes)
          → from_bytes body ≡ some message
          → decode_frame from_bytes body ≡ ok message
      read message body e = rw (e, decode_frame) refl

-- What the host's handler is given: an analysis its input, the other tasks nothing.
abbrev pub carried : TaskSpec → Bytes → Bytes
carried (TaskSpec.analysis _ _ _) bytes = bytes
carried _ bytes = []

abbrev pub Ships : TaskSpec → Bytes → Result NotShippable WireTaskSpec → Type 0
Ships spec bytes (ok wire) = (to_task wire ≡ spec) × (input wire ≡ some (carried spec bytes))
Ships spec bytes (err e) = (carried spec bytes ≡ bytes) × (max_artifact < length bytes)

-- A task that is shipped with its input arrives as the same task, and its input passes the check of
-- its digest; a refusal comes only where the input is handed on and is over the limit of an artifact.
pub of_task-Ships : (spec : TaskSpec) (bytes : Bytes) → Ships spec bytes (of_task spec (some bytes))
unfolding of_task to_task input ship_analysis new_artifact
of_task-Ships (TaskSpec.sleep millis) bytes = (refl, refl)
of_task-Ships (TaskSpec.primes start stop) bytes = (refl, refl)
of_task-Ships (TaskSpec.analysis version algorithm partition) bytes =
    elim (Bool-cases (ltb max_artifact (length bytes))) [
      | inl big ↦ rw (big, of_task, ship_analysis) (refl, omega tests)
      | inr fits ↦ rw (fits, of_task, ship_analysis) (refl, rw (==-refl (digest bytes)) refl)
    ]
