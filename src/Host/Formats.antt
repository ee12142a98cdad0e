-- ===== src/Host/Formats.antt =====
-- The format registry and frame routing of src/embedbench_host.cpp: `registerFormat`, `formatLabel`,
-- `frameAccept`, `frameTx` and `frameRx`.
pub mod Acceptance
pub mod Registry
use embed_bench.Prelude.{
  ℕ, zero, suc, ◌+◌, ◌-◌, ◌%◌, Bool, true, false, ◌&&◌, ◌||◌, Option, none, some, List, [], ◌∷◌,
  ◌++◌, ltb, leb, ◌==◌, not, if◌then◌else◌, length, get_or, take, replicate, str_eq,
}
use embed_bench.Label.{codes, dec, fit, payload_label}
use embed_bench.Frame.{frame_bytes, frame_padding_clean}
use embed_bench.Trace.{Origin}
use embed_bench.Host.State.{State, FormatSlot, free_format, frame}
use embed_bench.Host.Monad.{Sys, M, pure, ◌>>=◌, ◌>>◌, get, modify, when, maybe, Outside}
use embed_bench.Host.Record.{note, diagnose}
use embed_bench.Host.Deferral.{in_device, deliver_deferred, queue_deferred, refuse_reentrant_call}

-- kMaxFormats, kMaxFrameBits and ebdev::kFormatNameMaxLength.
abbrev pub max_formats : ℕ
max_formats = 8

abbrev pub max_frame_bits : ℕ
max_frame_bits = 64

abbrev pub name_max_length : ℕ
name_max_length = 19

-- The first slot in use under that name, counted from `i`.
unfoldable pub find_format : List FormatSlot → List ℕ → ℕ → Option (ℕ × FormatSlot)
find_format [] name i = none
find_format (f ∷ fs) name i =
    if f.used && str_eq f.name name then some (i, f) else find_format fs name (i + 1)

-- The first free slot takes the name; its index, counted from `i`, comes with the table.
unfoldable pub take_format : List FormatSlot → FormatSlot → ℕ → Option (ℕ × List FormatSlot)
take_format [] new i = none
take_format (f ∷ fs) new i =
    if f.used
    then elim (take_format fs new (i + 1)) [ none ↦ none | some (k, fs') ↦ some (k, f ∷ fs') ]
    else some (i, new ∷ fs)

-- What `registerFormat` decides on the registry: the id and the registry, or why not.
pub data Registration : Type 0 where
  known : (id : ℕ) → Registration
  added : (id : ℕ) → List FormatSlot → Registration
  empty_name long_name conflict full : Registration

unfoldable pub register : List FormatSlot → List ℕ → ℕ → Registration
unfolding find_format take_format fit
register fs name schema =
    if length name == 0
    then empty_name
    else if ltb name_max_length (length name)
    then long_name
    else elim (find_format fs name 0) [
      | some (i, f) ↦ if f.schema == schema then known ((i + 1) % 65536) else conflict
      | none ↦
          elim (take_format fs (record { used = true; name = fit 20 name; schema = schema }) 0) [
            | some (i, fs') ↦ added ((i + 1) % 65536) fs'
            | none ↦ full
          ]
    ]

-- formatLabel
unfoldable pub format_label : List FormatSlot → ℕ → ℕ → List ℕ
format_label fs id cap =
    if leb 1 id && (leb id max_formats && (get_or fs (id - 1) free_format).used)
    then fit cap (get_or fs (id - 1) free_format).name
    else fit cap (dec id)

-- The checks of `frameAccept` in their order; none is acceptance, otherwise the diagnostic's text.
unfoldable pub frame_refusal : List FormatSlot → ℕ → ℕ → Option (List ℕ) → ℕ → Option (List ℕ)
unfolding frame_padding_clean
frame_refusal fs bus format bytes bits =
    if format == 0
    then some (codes "diag.frame_noformat bus=" ++ dec bus)
    else if ltb max_formats format || not (get_or fs (format - 1) free_format).used
    then some (codes "diag.frame_unknown_format bus=" ++ dec bus ++ codes " fmt=" ++ dec format)
    else if ltb max_frame_bits bits
    then some (
        codes "diag.frame_oversize bus="
        ++ dec bus
        ++ codes " bits="
        ++ dec bits
        ++ codes " max="
        ++ dec max_frame_bits)
    else if ltb 0 bits && elim bytes [ none ↦ true | some _ ↦ false ]
    then some (codes "diag.frame_nodata bus=" ++ dec bus ++ codes " bits=" ++ dec bits)
    else if ltb 0 bits && not (frame_padding_clean bytes bits)
    then some (codes "diag.frame_padding bus=" ++ dec bus ++ codes " bits=" ++ dec bits)
    else none

-- The frame's bytes; a null pointer has none.
abbrev pub bytes_of : Option (List ℕ) → ℕ → List ℕ
bytes_of none bits = []
bytes_of (some bs) bits = take (frame_bytes bits) bs

-- `Deferred::data`: the first eight bytes, and zeros behind them.
unfoldable pub held_bytes : List ℕ → List ℕ
held_bytes bs = take 8 (take 8 bs ++ replicate 8 0)

module _ {ℓ} {W : Type ℓ} (o : Outside W) where
  -- The effects of a registration.
  unfoldable pub settle : List ℕ → Registration → M W ℕ
  settle name empty_name = pure 0
  settle name long_name = do
    diagnose o 0 (codes "diag.fmt_name_long len=" ++ dec (length name))
    pure 0
  settle name (known id) = pure id
  settle name conflict = do diagnose o 0 (codes "diag.fmt_conflict name=" ++ name); pure 0
  settle name (added id fs) = do modify (λ s. record s { formats = fs }); pure id
  settle name full = do diagnose o 0 (codes "diag.fmt_full name=" ++ name); pure 0

  unfoldable pub register_format : List ℕ → ℕ → M W ℕ
  register_format name schema = do
    formats ← get (λ s. s.formats)
    settle name (register formats name schema)

  unfoldable pub frame_accept : ℕ → ℕ → Option (List ℕ) → ℕ → M W Bool
  frame_accept bus format bytes bits = do
    formats ← get (λ s. s.formats)
    maybe (frame_refusal formats bus format bytes bits) (pure true)
        (λ text. do diagnose o 0 text; pure false)

  -- The line of an accepted frame.
  abbrev pub frame_text : List ℕ → ℕ → ℕ → Option (List ℕ) → ℕ → State → List ℕ
  frame_text what bus format bytes bits s =
      what
      ++ dec bus
      ++ codes " fmt="
      ++ format_label s.formats format 20
      ++ codes " bits="
      ++ dec bits
      ++ codes " "
      ++ payload_label (bytes_of bytes bits) 20

  unfoldable pub send_frame : ℕ → ℕ → Option (List ℕ) → ℕ → M W Bool
  send_frame bus format bytes bits = do
    device ← get (λ s. s.bindings.frame_device)
    if device.fn == 0 then pure true else (do
      refused ← refuse_reentrant_call o (codes "frame.tx")
      if refused then pure false else (do
        in_device (o.frame_handler device bus format (bytes_of bytes bits) bits)
        deliver_deferred o
        pure true))

  unfoldable pub frame_tx : Origin → ℕ → ℕ → Option (List ℕ) → ℕ → M W Bool
  frame_tx origin bus format bytes bits = do
    accepted ← frame_accept bus format bytes bits
    if accepted
        then (do
          text ← get (frame_text (codes "frame.tx bus=") bus format bytes bits)
          note o origin 0 text
          send_frame bus format bytes bits)
        else pure false

  unfoldable pub receive_frame : ℕ → ℕ → Option (List ℕ) → ℕ → M W (Unit {0})
  receive_frame bus format bytes bits = do
    receiver ← get (λ s. s.bindings.frame_receiver)
    depth ← get (λ s. s.reentry.device_depth)
    if receiver.fn == 0
        then pure tt
        else if ltb 0 depth
        then queue_deferred o (frame bus format (held_bytes (bytes_of bytes bits)) (bits % 256))
        else o.frame_handler receiver bus format (bytes_of bytes bits) bits

  unfoldable pub frame_rx : Origin → ℕ → ℕ → Option (List ℕ) → ℕ → M W Bool
  frame_rx origin bus format bytes bits = do
    accepted ← frame_accept bus format bytes bits
    if accepted
        then (do
          text ← get (frame_text (codes "dev.frame bus=") bus format bytes bits)
          note o origin 0 text
          receive_frame bus format bytes bits
          pure true)
        else pure false
