-- ===== src/Board/Settings.antt =====
-- The settings that a list of entries stands for: of each tag, the last entry counts.
use panog2_ldr.Base.{
  ℕ, ◌≡◌, refl, sym, ap, ◌∙◌, arith, List, [], ◌∷◌, Option, none, some, ◌==◌, if◌then◌else◌,
}
use panog2_ldr.Board.{Config, tag_auto_boot, tag_auto_boot_adr, tag_tftp_srv}
use panog2_ldr.Board.Entries.{Entry, apply_entry, apply_all}

abbrev pub last_value : ℕ → List Entry → Option ℕ
last_value tag [] = none
last_value tag (e ∷ es) = elim (last_value tag es) [
  | none ↦ if e.tag == tag then some e.first else none
  | some v ↦ some v
]

abbrev pub or_old : Option ℕ → ℕ → ℕ
or_old none old = old
or_old (some v) old = v

abbrev pub settings : List Entry → Config → Config
settings es c = record {
  auto_boot = or_old (last_value tag_auto_boot es) c.auto_boot;
  auto_boot_adr = or_old (last_value tag_auto_boot_adr es) c.auto_boot_adr;
  server_ip = or_old (last_value tag_tftp_srv es) c.server_ip;
}

pub apply_all-eq-settings : (es : List Entry) (c : Config) → apply_all es c ≡ settings es c
apply_all-eq-settings [] c = refl
apply_all-eq-settings (e ∷ es) c = apply_all-eq-settings es (apply_entry e c) ∙ ground arith

-- Reading the same block again changes nothing.
pub apply_all_again :
    (es : List Entry) (c : Config) → apply_all es (apply_all es c) ≡ apply_all es c
apply_all_again es c =
    apply_all-eq-settings es (apply_all es c)
    ∙ ap (settings es) (apply_all-eq-settings es c)
    ∙ twice
    ∙ sym (apply_all-eq-settings es c)
  where
    twice : settings es (settings es c) ≡ settings es c
    twice = ground arith
