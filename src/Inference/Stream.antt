-- ===== src/Inference/Stream.antt =====
-- `FrameStreamConsumer` of backend/inference/src/inference/stream_consumer.py: the loop that reads
-- the stream `audio_frames` through a consumer group, decodes each entry and acknowledges it.
-- Redis's answers are inputs: those of XGROUP CREATE, of each XREADGROUP and of each XACK. UTF-8 is
-- a parameter.
pub mod Decode
pub mod Loop
pub mod Pipeline
mod Examples
use drone_audio_sensor.Common.{
  ℕ, Bool, true, false, List, [], ◌∷◌, ◌++◌, Option, none, some, String, if◌then◌else◌, str_eq,
  get_or,
}
use drone_audio_sensor.Common.Int.{ℤ, pos}
use drone_audio_sensor.Common.Decimal.{str_ℤ, int}
use drone_audio_sensor.Gateway.Store.{FrameEntry}
use drone_audio_sensor.Inference.Gate.{FrameInput}

-- `str.encode` and `bytes.decode`; `none` is the `UnicodeDecodeError`.
pub record Utf8 : Type 0 where
  pub encode : String → List ℕ
  pub decode : List ℕ → Option String

-- The fields of an entry as Redis returns them, in bytes; `none` is a field that is not there.
pub record Fields : Type 0 where
  pub d : Option (List ℕ)
  pub ses : Option (List ℕ)
  pub s : Option (List ℕ)
  pub t : Option (List ℕ)
  pub r : Option (List ℕ)
  pub l : Option (List ℕ)
  pub p : Option (List ℕ)
  pub c : Option (List ℕ)

abbrev pub encoded : Utf8 → Option String → Option (List ℕ)
encoded u none = none
encoded u (some s) = some (u.encode s)

-- What `publish_frame` has XADD store: the numbers as decimal text, all text in UTF-8.
unfoldable pub stored : Utf8 → FrameEntry → Fields
stored u e = record {
  d = some (u.encode e.d);
  ses = some (u.encode e.ses);
  s = some (u.encode (str_ℤ (pos e.s)));
  t = some (u.encode (str_ℤ e.t));
  r = some (u.encode (str_ℤ e.r));
  l = some (u.encode e.l);
  p = some e.p;
  c = encoded u e.c;
}

-- `get_str`.
unfoldable pub get_str : Utf8 → Option (List ℕ) → Option String
get_str u none = some ""
get_str u (some v) = u.decode v

infixl 5 ◌>>=◌
abbrev ◌>>=◌ : {A B : Type 0} → Option A → (A → Option B) → Option B
none >>= f = none
some a >>= f = f a

-- `int(s or default)`.
unfoldable pub int_or : String → String → Option ℤ
int_or default s = int (if str_eq s "" then default else s)

-- The frame behind a payload that is there; `none` is an exception, which is logged.
unfoldable pub frame_of : Utf8 → Fields → List ℕ → Option FrameInput
frame_of u f pcm = do
  device_id ← get_str u f.d
  session_id ← get_str u f.ses
  s ← get_str u f.s
  sequence ← int_or "0" s
  t ← get_str u f.t
  capture_timestamp_ms ← int_or "0" t
  r ← get_str u f.r
  sample_rate_hz ← int_or "16000" r
  site_label ← get_str u f.l
  codec ← get_str u f.c
  some (record {
    device_id = device_id;
    session_id = session_id;
    sequence = sequence;
    capture_timestamp_ms = capture_timestamp_ms;
    sample_rate_hz = sample_rate_hz;
    site_label = site_label;
    pcm16_mono = pcm;
    codec = codec;
  })

abbrev pub with_payload : Utf8 → Fields → Option (List ℕ) → Option FrameInput
with_payload u f none = none
with_payload u f (some []) = none
with_payload u f (some (x ∷ xs)) = frame_of u f (x ∷ xs)

-- `_decode_frame`: an entry without a payload, or with an empty one, gives no frame.
unfoldable pub decode_frame : Utf8 → Fields → Option FrameInput
decode_frame u f = with_payload u f f.p

-- The answer of XGROUP CREATE.
pub data Created : Type 0 where
  created : Created
  busygroup : Created
  failed : Created

-- `_ensure_group`, on the flag `_group_ready`: the flag that is left, or `none` where it raises.
unfoldable pub ensure_group : Bool → Created → Option Bool
ensure_group true answer = some true
ensure_group false created = some true
ensure_group false busygroup = some true
ensure_group false failed = none

-- An entry that XREADGROUP delivers, with what surrounds its handling, and whether the XACK that
-- the code may send for it returns.
pub record Delivery (A : Type 0) : Type 0 where
  pub entry_id : ℕ
  pub fields : Fields
  pub around : A
  pub acks : Bool

-- The answer of one XREADGROUP; an empty list is the timeout of the blocking read.
pub data Read (A : Type 0) : Type 0 where
  raised : Read A
  entries : List (Delivery A) → Read A

-- The state behind the handler, and the ids that Redis took as acknowledged, in order.
pub record Consumer (S : Type 0) : Type 0 where
  pub handled : S
  pub acked : List ℕ

-- The state that is left, and whether the handler returns.
abbrev pub Handler : Type 0 → Type 0 → Type 0
Handler A S = A → FrameInput → S → S × Bool

module _ {A : Type 0} {S : Type 0} (u : Utf8) (h : Handler A S) where
  abbrev pub xack : Delivery A → List ℕ → List ℕ
  xack d acked = if d.acks then acked ++ d.entry_id ∷ [] else acked

  -- A handler that raises leaves the entry without its XACK, and so does an XACK that raises; both
  -- exceptions are logged.
  abbrev pub outcome : Delivery A → List ℕ → S × Bool → Consumer S
  outcome d acked (s, true) = record { handled = s; acked = xack d acked }
  outcome d acked (s, false) = record { handled = s; acked = acked }

  -- One entry of a batch; the flag says that the loop goes on. An XACK that raises for an entry
  -- without a frame ends `run`.
  abbrev pub with_frame : Delivery A → Consumer S → Option FrameInput → Consumer S × Bool
  with_frame d c none = (record c { acked = xack d c.acked }, d.acks)
  with_frame d c (some f) = (outcome d c.acked (h d.around f c.handled), true)

  unfoldable pub take_entry : Delivery A → Consumer S → Consumer S × Bool
  take_entry d c = with_frame d c (decode_frame u d.fields)

  unfoldable pub take_batch : List (Delivery A) → Consumer S → Consumer S × Bool
  take_batch [] c = (c, true)
  take_batch (d ∷ ds) c =
      let (c', goes_on) = take_entry d c in
      let rest = take_batch ds c' in if goes_on then rest else (c', false)

  -- `while not self._stop.is_set()`, over the answers until `stop` is called.
  unfoldable pub turns : List (Read A) → Consumer S → Consumer S × Bool
  turns [] c = (c, true)
  turns (raised ∷ reads) c = turns reads c
  turns (entries ds ∷ reads) c =
      let (c', goes_on) = take_batch ds c in
      let rest = turns reads c' in if goes_on then rest else (c', false)

  -- `run`, on a fresh consumer: `none` where `_ensure_group` raises.
  unfoldable pub run : Created → List (Read A) → Consumer S → Option (Consumer S × Bool)
  run answer reads c = elim (ensure_group false answer) [
    | none ↦ none
    | some ready ↦ some (turns reads c)
  ]
