-- ===== src/Cmd/Transfer/Each.antt =====
-- The wait of a transfer that takes every packet: what each packet keeps holds at the end.
use panog2_ldr.Base.{
  ℕ, ◌≡◌, refl, sym, subst, ap, ◌∙◌, List, [], ◌∷◌, ◌++◌, some, none, Option, append-nil,
  append_assoc, returns, ◌>>=◌,
}
use panog2_ldr.Spi.{Spi}
use panog2_ldr.Tftp.{Io, Ret, good, in_progress, tftp_write}
use panog2_ldr.Tftp.Flash.{packet}
use panog2_ldr.Tftp.Transfer.{flatten}
use panog2_ldr.Console.{Console}
use panog2_ldr.Cmd.{Sys, Parser}
use panog2_ldr.Cmd.Transfer.{
  Event, idle, write_event, tftp_transfer_wait, io_of, with_io, poll, show_progress, or_fault,
}
use panog2_ldr.Cmd.Transfer.Wait.{wait_step}
use panog2_ldr.Cmd.Transfer.Packets.{arrivals, packets, show_progress-IsShown}

-- `Inv` of the bytes so far is an invariant of a transfer: it holds only while one is in progress, does not
-- look at the progress that is shown, and is kept by a packet that `Fine` lets in front of the others.
pub record IsKept (spi : Spi) (Inv : List ℕ → Io spi.Flash → Type 0)
    (Fine : List ℕ → List (List ℕ) → Type 0) : Type 0 where
  pub running : (w : List ℕ) (io : Io spi.Flash) → Inv w io → io.ldr.error ≡ in_progress
  pub shown :
      (w : List ℕ) (io : Io spi.Flash) (n : ℕ)
      → Inv w io
      → Inv w (record io { ldr = record io.ldr { last_progress = n } })
  pub step :
      (w p : List ℕ) (ps : List (List ℕ)) (io : Io spi.Flash)
      → Inv w io
      → Fine w (p ∷ ps)
      → (io' : Io spi.Flash) × (tftp_write spi (packet p) io ≡ some (good, io'))
        × Inv (w ++ p) io'
        × Fine (w ++ p) ps

module _ (spi : Spi) (con : Console) (parser : Parser) where
  -- A packet's turn of the wait.
  pub packet_turn :
      (p : List ℕ) (rest : List Event) (n : ℕ) (s : Sys spi.Flash con.Net) (r : Ret)
      (io : Io spi.Flash)
      → s.ldr.error ≡ in_progress
      → tftp_write spi (packet p) (io_of spi con parser s) ≡ some (r, io)
      → tftp_transfer_wait spi con parser (write_event (packet p) ∷ rest) n s
        ≡ tftp_transfer_wait spi con parser rest
            (show_progress spi con parser n (with_io spi con parser s io)).0
            (show_progress spi con parser n (with_io spi con parser s io)).1
  unfolding poll
  packet_turn p rest n s r io running e =
      wait_step spi con parser (write_event (packet p)) rest n s (with_io spi con parser s io)
        running
        (ap (λ o. or_fault spi con parser o >>= λ q. returns (with_io spi con parser s q.1)) e)

  module _ (Inv : List ℕ → Io spi.Flash → Type 0) (Fine : List ℕ → List (List ℕ) → Type 0)
      (kept : IsKept spi Inv Fine) where
    dot_keeps :
        (w : List ℕ) (n : ℕ) (s : Sys spi.Flash con.Net)
        → Inv w (io_of spi con parser s)
        → Inv w (io_of spi con parser (show_progress spi con parser n s).1)
    dot_keeps w n s v =
        let h = show_progress-IsShown spi con parser n s in
        subst (λ u. Inv w (io_of spi con parser u)) (sym h.same)
          (kept.shown w (io_of spi con parser s) h.progress v)

    -- The wait gets to the events behind the packets.
    pub wait_each :
        (ps : List (Option (List ℕ))) (rest : List Event) (w : List ℕ) (n : ℕ)
        (s : Sys spi.Flash con.Net)
        → Inv w (io_of spi con parser s)
        → Fine w (packets ps)
        → (n' : ℕ) × (s' : Sys spi.Flash con.Net) × (tftp_transfer_wait spi con parser
              (arrivals ps ++ rest)
              n
              s
            ≡ tftp_transfer_wait spi con parser rest n' s')
          × Inv (w ++ flatten (packets ps)) (io_of spi con parser s')
    unfolding poll
    wait_each [] rest w n s v fine =
        (n, s, refl, subst (λ x. Inv x (io_of spi con parser s)) (sym (append-nil w)) v)
    wait_each (none ∷ ps) rest w n s v fine =
        let q = show_progress spi con parser n s in
        let (n', s', run, v') = wait_each ps rest w q.0 q.1 (dot_keeps w n s v) fine in
        (
          n',
          s',
          wait_step spi con parser idle (arrivals ps ++ rest) n s s
                (kept.running w (io_of spi con parser s) v) refl
              ∙ run,
          v',
        )
    wait_each (some p ∷ ps) rest w n s v fine =
        let (io, e, v1, fine1) = kept.step w p (packets ps) (io_of spi con parser s) v fine in
        let t = with_io spi con parser s io in
        let q = show_progress spi con parser n t in
        let (n', s', run, v') =
          wait_each ps rest (w ++ p) q.0 q.1 (dot_keeps (w ++ p) n t v1) fine1 in
        (
          n',
          s',
          packet_turn p (arrivals ps ++ rest) n s good io
                (kept.running w (io_of spi con parser s) v) e
              ∙ run,
          subst (λ x. Inv x (io_of spi con parser s')) (append_assoc w p (flatten (packets ps))) v',
        )
