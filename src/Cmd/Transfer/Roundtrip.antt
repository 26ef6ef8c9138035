-- ===== src/Cmd/Transfer/Roundtrip.antt =====
-- `flash`, and then `verify` of the same file.
use panog2_ldr.Base.{
  ℕ, ◌+◌, ◌≤◌, ◌≡◌, inl, inr, sym, subst, ap, ◌∙◌, arith, true, List, ◌∷◌, ◌++◌, some, Option,
  length, get_or, get_or-bytes, bytes, returns,
}
use panog2_ldr.Spi.{FlashInfo, Spi, IsNor}
use panog2_ldr.Tftp.{Ldr, Client, err_ok, type_flash, type_compare, ldr_tftp_init}
use panog2_ldr.Tftp.Flash.{IsChip}
use panog2_ldr.Tftp.Transfer.{flatten, ArePackets, StartsInSector}
use panog2_ldr.Tftp.Verify.{AreBlocks}
use panog2_ldr.Board.{temp_size}
use panog2_ldr.Console.{Console, verified}
use panog2_ldr.Cmd.{Sys, Parser, result_ok}
use panog2_ldr.Cmd.Transfer.{Event, close_event, get_tftp_transfer_vals, flash_cmd, verify_cmd}
use panog2_ldr.Cmd.Transfer.Packets.{arrivals, packets}
use panog2_ldr.Cmd.Transfer.Program.{flash_cmd_lem}
use panog2_ldr.Cmd.Transfer.Agree.{Says, verify_cmd_lem}

-- A flash that holds what is sent leaves `verify` no byte that differs.
pub Says-equal :
    (spi : Spi) (con : Console) (f : spi.Flash) (adr : ℕ) (sent : List ℕ) (net : con.Net)
    → bytes (spi.peek f) adr (length sent) ≡ sent
    → Says spi con f adr sent net
    → (n : con.Net) × (net ≡ con.print (verified (length sent)) n)
Says-equal spi con f adr sent net holds (c, n, e, inl (all, _)) =
    (n, e ∙ ap (λ k. con.print (verified k) n) all)
Says-equal spi con f adr sent net holds (c, n, e, inr (below, _, differs, _)) = absurd (
    differs
      (sym (get_or-bytes (spi.peek f) adr (length sent) c below) ∙ ap (λ xs. get_or xs c 0) holds))

pub returned : {A : Type 0} (a b : A) → returns a ≡ returns b → a ≡ b
returned a b e = cc

-- `flash` of a file, under the conditions of the theorem on that command, and then `verify` of the same file at
-- the same address: however the bytes are split into packets the second time, `verify` answers RESULT_OK,
-- leaves the flash alone, and says last that all the bytes of the file were verified.
pub flash_then_verify_lem :
    (spi : Spi) (con : Console) (parser : Parser) (chip : FlashInfo) (client client' : Client)
    (ps ps' : List (Option (List ℕ))) (rest rest' : List Event) (stale stale' line line' : List ℕ)
    (s t s1 t1 : Sys spi.Flash con.Net) (q q1 : Ldr)
    → IsNor spi chip
    → IsChip chip
    → spi.info ≡ some chip
    → get_tftp_transfer_vals spi con parser stale line type_flash s ≡ (result_ok, t)
    → ldr_tftp_init client (some t.ldr) ≡ (err_ok, some q)
    → t.ldr.auto_erase ≡ true
    → ArePackets chip (packets ps)
    → StartsInSector chip t.ldr.flash_adr (packets ps)
    → t.ldr.flash_adr + length (flatten (packets ps)) ≤ chip.flash_size
    → flash_cmd spi con parser client (arrivals ps ++ close_event ∷ rest) stale line s
      ≡ returns (result_ok, s1)
    → get_tftp_transfer_vals spi con parser stale' line' type_compare s1 ≡ (result_ok, t1)
    → ldr_tftp_init client' (some t1.ldr) ≡ (err_ok, some q1)
    → t1.ldr.flash_adr ≡ t.ldr.flash_adr
    → temp_size ≤ length s1.temp
    → AreBlocks temp_size (packets ps')
    → flatten (packets ps') ≡ flatten (packets ps)
    → (s2 : Sys spi.Flash con.Net) × (n : con.Net) × (verify_cmd spi con parser client'
          (arrivals ps' ++ close_event ∷ rest')
          stale'
          line'
          s1
        ≡ returns (result_ok, s2))
      × (s2.flash ≡ s1.flash)
      × (s2.net ≡ con.print (verified (length (flatten (packets ps)))) n)
flash_then_verify_lem spi con parser chip client client' ps ps' rest rest' stale stale' line line' s
      t s1 t1 q q1 nor geometry has vals init erasing pks starts room flashed_ok vals' init' same
      temp bs split =
    let (s', _, run, _, holds, _, _) =
      flash_cmd_lem spi con parser chip client ps rest stale line s t q nor geometry has vals init
        erasing pks starts room in
    let ended : s' ≡ s1 = ap (λ r. r.1) (returned _ _ (sym run ∙ flashed_ok)) in
    let (s2, checked, kept, says) =
      verify_cmd_lem spi con parser chip client' ps' rest' stale' line' s1 t1 q1 nor geometry.small
        vals' init' temp bs (omega (arith, same, ap length split)) in
    let stored : bytes (spi.peek s1.flash) t1.ldr.flash_adr (length (flatten (packets ps')))
        ≡ flatten (packets ps') =
      subst
        (λ a. bytes (spi.peek s1.flash) a (length (flatten (packets ps'))) ≡ flatten (packets ps'))
        (sym same)
        (subst (λ xs. bytes (spi.peek s1.flash) t.ldr.flash_adr (length xs) ≡ xs) (sym split)
          (subst
            (λ (v : Sys spi.Flash con.Net).
              bytes (spi.peek v.flash) t.ldr.flash_adr (length (flatten (packets ps)))
              ≡ flatten (packets ps))
            ended holds)) in
    let (n, shown) =
      Says-equal spi con s1.flash t1.ldr.flash_adr (flatten (packets ps')) s2.net stored says in
    (s2, n, checked, kept, shown ∙ ap (λ xs. con.print (verified (length xs)) n) split)
