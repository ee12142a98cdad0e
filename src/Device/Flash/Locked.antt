-- ===== src/Device/Flash/Locked.antt =====
-- A flash that is not write-enabled keeps its memory.
use embed_bench.Prelude.{
  ℕ, ◌≡◌, ◌≢◌, refl, sym, ap, ◌∙◌, subst, Bool, true, false, if◌then◌else◌, ◌&&◌, ◌||◌, Option,
  List, [], ◌∷◌, ◌++◌, ltb, ◌==◌, not, length, arith, if_rule,
}
use mathlib.Core.Bool.{false≢true}
use embed_bench.Label.{codes}
use embed_bench.Device.Port.{HostPort, clock, say}
use embed_bench.Device.Flash.{
  Phase, idle, command, address, data_phase, Flash, write_enable, page_program, chip_erase, reset,
  command_over, refuse, begin_erase, begin_program, commit, finish_command, line_in, take_command,
  read_command, status_command, size, take_data, in_phase, spi_transfer, advance_to,
}

-- Neither enabled nor busy, with the memory `bytes`.
pub record IsLocked (bytes : List ℕ) (c : Flash) : Type 0 where
  pub not_enabled : c.write_enabled ≡ false
  pub not_busy : c.busy ≡ false
  pub kept : c.memory ≡ bytes

-- What may happen to a flash.
pub data Use : Type 0 where
  restart : Use
  line : (number level : ℕ) → Use
  clock_in : (mosi : ℕ) → Use
  pass : (now : ℕ) → Use

-- What an observer of the bus sees of the part: it is not selected, it was selected and has got no byte
-- since, or it has.
pub data Bus : Type 0 where
  deselected opened under_way : Bus

abbrev pub is_selected : Bus → Bool
is_selected deselected = false
is_selected opened = true
is_selected under_way = true

abbrev pub is_under_way : Bus → Bool
is_under_way under_way = true
is_under_way _ = false

abbrev pub select : Bus → Bus
select deselected = opened
select b = b

abbrev pub next_byte : Bus → Bus
next_byte deselected = deselected
next_byte _ = under_way

abbrev pub watch : Use → Bus → Bus
watch restart b = deselected
watch (line number level) b =
    if not (number == 0) then b else if level == 0 then select b else deselected
watch (clock_in mosi) b = next_byte b
watch (pass now) b = b

-- The first byte after the part is selected, which is its command, does not enable writing; any other
-- byte may have any value.
abbrev pub IsHarmless : Bus → Use → Type 0
IsHarmless opened (clock_in mosi) = mosi ≢ write_enable
IsHarmless _ _ = Unit {0}

abbrev pub AllHarmless : Bus → List Use → Type 0
AllHarmless b [] = Unit {0}
AllHarmless b (u ∷ us) = IsHarmless b u × AllHarmless (watch u b) us

abbrev is_command : Phase → Bool
is_command command = true
is_command _ = false

-- The part is as the observer sees it.
pub record Matches (b : Bus) (c : Flash) : Type 0 where
  pub chosen : c.selected ≡ is_selected b
  pub past : is_under_way b ≡ true → c.phase ≢ command

reset-IsLocked : (bytes : List ℕ) (c : Flash) → IsLocked bytes c → IsLocked bytes (reset c)
unfolding reset
reset-IsLocked bytes c o = record { not_enabled = refl; not_busy = refl; kept = o.kept }

advance_to-IsLocked :
    (now : ℕ) (bytes : List ℕ) (c : Flash) → IsLocked bytes c → IsLocked bytes (advance_to now c)
unfolding advance_to
advance_to-IsLocked now bytes c o =
    if_rule (IsLocked bytes) {b = not c.busy || ltb now c.done_us} (λ b. o)
      (λ b. absurd (ground (arith, b, o.not_busy)))

take_command-IsLocked :
    (mosi : ℕ) (bytes : List ℕ) (c : Flash)
    → mosi ≢ write_enable
    → IsLocked bytes c
    → IsLocked bytes (take_command mosi c)
unfolding take_command
take_command-IsLocked mosi bytes c n o = record {
  not_enabled = ground (arith, n, o.not_enabled);
  not_busy = ground (arith, o.not_busy);
  kept = ground (arith, o.kept);
}

in_phase-IsLocked :
    (ph : Phase) (mosi : ℕ) (bytes : List ℕ) (c : Flash)
    → (ph ≡ command → mosi ≢ write_enable)
    → IsLocked bytes c
    → IsLocked bytes (in_phase ph mosi c).1
unfolding in_phase take_data
in_phase-IsLocked idle mosi bytes c n o = o
in_phase-IsLocked command mosi bytes c n o = take_command-IsLocked mosi bytes c (n refl) o
in_phase-IsLocked address mosi bytes c n o = record {
  not_enabled = o.not_enabled;
  not_busy = o.not_busy;
  kept = o.kept;
}
in_phase-IsLocked data_phase mosi bytes c n o = record {
  not_enabled = ground (arith, o.not_enabled);
  not_busy = ground (arith, o.not_busy);
  kept = ground (arith, o.kept);
}

transfer-IsLocked :
    (mosi : ℕ) (bytes : List ℕ) (c : Flash)
    → (c.selected ≡ true → c.phase ≡ command → mosi ≢ write_enable)
    → IsLocked bytes c
    → IsLocked bytes (spi_transfer mosi c).1
unfolding spi_transfer
transfer-IsLocked mosi bytes c n o =
    if_rule (λ (r : ℕ × Flash). IsLocked bytes r.1) {b = not c.selected} (λ b. o)
      (λ b. in_phase-IsLocked c.phase mosi bytes c (n (ground (arith, b))) o)

reset-Matches : (c : Flash) → Matches deselected (reset c)
unfolding reset
reset-Matches c = record { chosen = refl; past = λ e. absurd (false≢true e) }

advance_to-Matches : (b : Bus) (now : ℕ) (c : Flash) → Matches b c → Matches b (advance_to now c)
unfolding advance_to
advance_to-Matches b now c m =
    if_rule (Matches b) {b = not c.busy || ltb now c.done_us} (λ _. m)
      (λ _. record { chosen = m.chosen; past = m.past })

not_command : (ph : Phase) → is_command ph ≡ false → ph ≢ command
not_command ph h e = false≢true (sym h ∙ ap is_command e)

take_command-past :
    (mosi : ℕ) (c : Flash)
    → (is_command (take_command mosi c).phase ≡ false)
      × ((take_command mosi c).selected ≡ c.selected)
unfolding take_command
take_command-past mosi c =
    let Past = λ (d : Flash). (is_command d.phase ≡ false) × (d.selected ≡ c.selected) in
    if_rule Past {b = mosi == write_enable} (λ _. (refl, refl))
      (λ _.
        if_rule Past {b = mosi == chip_erase} (λ _. (refl, refl))
          (λ _. if_rule Past {b = mosi == status_command} (λ _. (refl, refl)) (λ _. (refl, refl))))

-- After a byte no part waits for its command.
in_phase-past :
    (ph : Phase) (mosi : ℕ) (c : Flash)
    → c.phase ≡ ph
    → (is_command (in_phase ph mosi c).1.phase ≡ false)
      × ((in_phase ph mosi c).1.selected ≡ c.selected)
unfolding in_phase take_data
in_phase-past idle mosi c e = (ap is_command e, refl)
in_phase-past command mosi c e = take_command-past mosi c
in_phase-past address mosi c e = (refl, refl)
in_phase-past data_phase mosi c e =
    let Past = λ (r : ℕ × Flash). (is_command r.1.phase ≡ false) × (r.1.selected ≡ c.selected) in
    if_rule Past {b = c.command_byte == status_command} (λ _. (ap is_command e, refl))
      (λ _.
        if_rule Past {b = c.command_byte == read_command}
          (λ _.
            if_rule Past {b = ltb c.address_byte size} (λ _. (ap is_command e, refl))
              (λ _. (ap is_command e, refl)))
          (λ _.
            if_rule Past {b = c.command_byte == page_program && ltb (length c.staging) size}
              (λ _. (ap is_command e, refl)) (λ _. (ap is_command e, refl))))

transfer-Matches :
    (b : Bus) (mosi : ℕ) (c : Flash) → Matches b c → Matches (next_byte b) (spi_transfer mosi c).1
unfolding spi_transfer
transfer-Matches deselected mosi c m =
    if_rule (λ (r : ℕ × Flash). Matches deselected r.1) {b = not c.selected} (λ _. m)
      (λ e. absurd (ground (arith, e, m.chosen)))
transfer-Matches opened mosi c m =
    let p = in_phase-past c.phase mosi c refl in
    if_rule (λ (r : ℕ × Flash). Matches under_way r.1) {b = not c.selected}
      (λ e. absurd (ground (arith, e, m.chosen)))
      (λ _. record { chosen = p.1 ∙ m.chosen; past = λ _. not_command _ p.0 })
transfer-Matches under_way mosi c m =
    let p = in_phase-past c.phase mosi c refl in
    if_rule (λ (r : ℕ × Flash). Matches under_way r.1) {b = not c.selected}
      (λ e. absurd (ground (arith, e, m.chosen)))
      (λ _. record { chosen = p.1 ∙ m.chosen; past = λ _. not_command _ p.0 })

module _ {ℓ} {P : Type ℓ} (port : Option (HostPort P)) where
  abbrev pub use_flash : Use → Flash → P → Flash × P
  use_flash restart c p = (reset c, p)
  use_flash (line number level) c p = line_in port number level c p
  use_flash (clock_in mosi) c p = ((spi_transfer mosi c).1, p)
  use_flash (pass now) c p = (advance_to now c, p)

  abbrev pub use_all : List Use → Flash → P → Flash × P
  use_all [] c p = (c, p)
  use_all (u ∷ us) c p = use_all us (use_flash u c p).0 (use_flash u c p).1

  commit-refused :
      (what : List ℕ) (begun c : Flash) (p : P)
      → c.write_enabled ≡ false
      → commit port what begun c p ≡ (refuse c, say port (what ++ codes " without write-enable") p)
  unfolding commit
  commit-refused what begun c p e = ground (arith, e)

  finish_command-IsLocked :
      (bytes : List ℕ) (c : Flash) (p : P)
      → IsLocked bytes c
      → IsLocked bytes (finish_command port c p).0
  unfolding finish_command
  finish_command-IsLocked bytes c p o =
      let erase = commit-refused (codes "erase") (begin_erase (clock port p) c) c p o.not_enabled in
      let program =
        commit-refused (codes "program") (begin_program (clock port p) c) c p o.not_enabled in
      let over = λ (r : Flash × P). IsLocked bytes (command_over r.0) in
      let refused : IsLocked bytes (command_over (refuse c)) = record {
        not_enabled = o.not_enabled;
        not_busy = o.not_busy;
        kept = o.kept;
      } in
      let same : IsLocked bytes (command_over c) = record {
        not_enabled = o.not_enabled;
        not_busy = o.not_busy;
        kept = o.kept;
      } in
      if_rule (λ (r : Flash × P). IsLocked bytes r.0) {b = c.command_byte == chip_erase}
        (λ b. subst over (sym erase) refused)
        (λ b.
          if_rule (λ (r : Flash × P). IsLocked bytes r.0)
            {b = c.command_byte == page_program && ltb 0 (length c.staging)}
            (λ d. subst over (sym program) refused) (λ d. same))

  line_in-IsLocked :
      (number level : ℕ) (bytes : List ℕ) (c : Flash) (p : P)
      → IsLocked bytes c
      → IsLocked bytes (line_in port number level c p).0
  unfolding line_in
  line_in-IsLocked number level bytes c p o =
      let down =
        finish_command-IsLocked bytes (record c { selected = false }) p
          (record { not_enabled = o.not_enabled; not_busy = o.not_busy; kept = o.kept }) in
      if_rule (λ (r : Flash × P). IsLocked bytes r.0) {b = not (number == 0)} (λ b. o)
        (λ b.
          if_rule (λ (r : Flash × P). IsLocked bytes r.0) {b = level == 0}
            (λ d.
              if_rule (λ (r : Flash × P). IsLocked bytes r.0) {b = c.selected} (λ e. o)
                (λ e. record { not_enabled = o.not_enabled; not_busy = o.not_busy; kept = o.kept }))
            (λ d.
              if_rule (λ (r : Flash × P). IsLocked bytes r.0) {b = c.selected} (λ e. down)
                (λ e. o)))

  harmless-first :
      (b : Bus) (mosi : ℕ) (c : Flash)
      → IsHarmless b (clock_in mosi)
      → Matches b c
      → c.selected ≡ true
      → c.phase ≡ command
      → mosi ≢ write_enable
  harmless-first deselected mosi c n m s e = absurd (false≢true (sym m.chosen ∙ s))
  harmless-first opened mosi c n m s e = n
  harmless-first under_way mosi c n m s e = absurd (m.past refl e)

  use_flash-IsLocked :
      (b : Bus) (bytes : List ℕ) (u : Use) (c : Flash) (p : P)
      → IsHarmless b u
      → Matches b c
      → IsLocked bytes c
      → IsLocked bytes (use_flash u c p).0
  use_flash-IsLocked b bytes restart c p n m o = reset-IsLocked bytes c o
  use_flash-IsLocked b bytes (line number level) c p n m o =
      line_in-IsLocked number level bytes c p o
  use_flash-IsLocked b bytes (clock_in mosi) c p n m o =
      transfer-IsLocked mosi bytes c (harmless-first b mosi c n m) o
  use_flash-IsLocked b bytes (pass now) c p n m o = advance_to-IsLocked now bytes c o

  commit-selected :
      (what : List ℕ) (begun c : Flash) (p : P)
      → begun.selected ≡ c.selected
      → (commit port what begun c p).0.selected ≡ c.selected
  unfolding commit
  commit-selected what begun c p e = ground (arith, e)

  finish_command-selected : (c : Flash) (p : P) → (finish_command port c p).0.selected ≡ c.selected
  unfolding finish_command
  finish_command-selected c p =
      let erase = commit-selected (codes "erase") (begin_erase (clock port p) c) c p refl in
      let program = commit-selected (codes "program") (begin_program (clock port p) c) c p refl in
      ground (arith, erase, program)

  line_in-Matches :
      (b : Bus) (number level : ℕ) (c : Flash) (p : P)
      → Matches b c
      → Matches (watch (line number level) b) (line_in port number level c p).0
  unfolding line_in
  line_in-Matches deselected number level c p m = record {
    chosen = ground (arith, m.chosen);
    past = λ e. absurd (ground (arith, e));
  }
  line_in-Matches opened number level c p m = record {
    chosen = ground (arith, m.chosen, finish_command-selected (record c { selected = false }) p);
    past = λ e. absurd (ground (arith, e));
  }
  line_in-Matches under_way number level c p m = record {
    chosen = ground (arith, m.chosen, finish_command-selected (record c { selected = false }) p);
    past = λ e. ground (arith, e, m.chosen, m.past refl);
  }

  use_flash-Matches :
      (b : Bus) (u : Use) (c : Flash) (p : P)
      → Matches b c
      → Matches (watch u b) (use_flash u c p).0
  use_flash-Matches b restart c p m = reset-Matches c
  use_flash-Matches b (line number level) c p m = line_in-Matches b number level c p m
  use_flash-Matches b (clock_in mosi) c p m = transfer-Matches b mosi c m
  use_flash-Matches b (pass now) c p m = advance_to-Matches b now c m

  -- Take a flash that is neither write-enabled nor busy, and any sequence of power cycles, select lines,
  -- clock steps and bytes on the bus, in which no command, the first byte after the part is selected, is
  -- the one that enables writing. Through it the flash keeps its memory, and after it the flash is neither
  -- enabled nor busy.
  pub use_all-IsLocked :
      (us : List Use) (b : Bus) (bytes : List ℕ) (c : Flash) (p : P)
      → AllHarmless b us
      → Matches b c
      → IsLocked bytes c
      → IsLocked bytes (use_all us c p).0
  use_all-IsLocked [] b bytes c p n m o = o
  use_all-IsLocked (u ∷ us) b bytes c p n m o =
      use_all-IsLocked us (watch u b) bytes (use_flash u c p).0 (use_flash u c p).1 n.1
        (use_flash-Matches b u c p m) (use_flash-IsLocked b bytes u c p n.0 m o)
