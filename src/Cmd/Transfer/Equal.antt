-- ===== src/Cmd/Transfer/Equal.antt =====
-- The wait of a `verify` transfer, over its packets.
use panog2_ldr.Base.{
  ℕ, ◌+◌, ◌^◌, ◌≤◌, ◌<◌, ◌≡◌, ◌⊎◌, inl, inr, refl, sym, subst, ◌∙◌, arith, List, [], ◌∷◌, ◌++◌,
  some, none, Option, length, length-append, append-nil, append_assoc, get_or, returns,
  if◌then◌else◌, ltb, u32,
}
use panog2_ldr.Spi.{FlashInfo, Spi, IsNor}
use panog2_ldr.Tftp.{err_compare_fail}
use panog2_ldr.Tftp.Flash.{packet}
use panog2_ldr.Tftp.Transfer.{flatten}
use panog2_ldr.Tftp.Verify.{
  AreBlocks, IsVerifying, HasStopped, HasStopped-append, tftp_write-verifies,
}
use panog2_ldr.Console.{Console, newline, compare_failed}
use panog2_ldr.Cmd.{Sys, Parser, result_ok}
use panog2_ldr.Cmd.Transfer.{
  Event, idle, write_event, tftp_transfer_wait, report, io_of, with_io, poll, show_progress,
}
use panog2_ldr.Cmd.Transfer.Wait.{wait_over, wait_step}
use panog2_ldr.Cmd.Transfer.Each.{packet_turn}
use panog2_ldr.Cmd.Transfer.Packets.{arrivals, packets, IsShown, show_progress-IsShown}

module _ (spi : Spi) (con : Console) (parser : Parser) where
  pub report_stopped :
      (n : ℕ) (s : Sys spi.Flash con.Net)
      → get_or s.ldr.err_msg 0 0 ≡ 0
      → s.ldr.error ≡ err_compare_fail
      → (shown : con.Net) × (report spi con parser n s ≡ (
        result_ok,
        record s {
          net = con.print (compare_failed (u32 (s.ldr.flash_adr + s.ldr.bytes_transfered))) shown;
        },
      ))
  unfolding report
  report_stopped n s m e = (if ltb 0 n then con.print newline s.net else s.net, ground arith)

  module _ (chip : FlashInfo) (nor : IsNor spi chip) (small : chip.flash_size < 2 ^ 31)
      (f0 : spi.Flash) (base room : ℕ) where
    IsShown-IsVerifying :
        (seen : List ℕ) (s t : Sys spi.Flash con.Net)
        → IsShown spi con parser s t
        → IsVerifying spi f0 base room seen (io_of spi con parser s)
        → IsVerifying spi f0 base room seen (io_of spi con parser t)
    IsShown-IsVerifying seen s t h v =
        subst (λ u. IsVerifying spi f0 base room seen (io_of spi con parser u)) (sym h.same)
          (record {
            kind = v.kind;
            running = v.running;
            no_message = v.no_message;
            start = v.start;
            count = v.count;
            limit = v.limit;
            buffer = v.buffer;
            unchanged = v.unchanged;
            equal = v.equal;
          })

    IsShown-HasStopped :
        (sent : List ℕ) (s t : Sys spi.Flash con.Net)
        → IsShown spi con parser s t
        → HasStopped spi f0 base room sent (io_of spi con parser s)
        → HasStopped spi f0 base room sent (io_of spi con parser t)
    IsShown-HasStopped sent s t h v =
        subst (λ u. HasStopped spi f0 base room sent (io_of spi con parser u)) (sym h.same)
          (record {
            ended = v.ended;
            no_message = v.no_message;
            start = v.start;
            below = v.below;
            unchanged = v.unchanged;
            equal = v.equal;
            differs = v.differs;
          })

    -- The wait gets to the events behind the packets, or ends at a byte that differs.
    abbrev pub Compares : List Event → List Event → List ℕ → ℕ → Sys spi.Flash con.Net → Type 0
    Compares events rest sent n s =
        (n' : ℕ) × (s' : Sys spi.Flash con.Net) × ((tftp_transfer_wait spi con parser events n s
              ≡ tftp_transfer_wait spi con parser rest n' s')
            × IsVerifying spi f0 base room sent (io_of spi con parser s')
          ⊎ (tftp_transfer_wait spi con parser events n s ≡ returns (report spi con parser n' s'))
            × HasStopped spi f0 base room sent (io_of spi con parser s'))

    Compares-step :
        (events events' rest : List Event) (sent : List ℕ) (n m : ℕ) (s t : Sys spi.Flash con.Net)
        → tftp_transfer_wait spi con parser events n s
          ≡ tftp_transfer_wait spi con parser events' m t
        → Compares events' rest sent m t
        → Compares events rest sent n s
    Compares-step events events' rest sent n m s t e (n', s', inl (run, v)) =
        (n', s', inl (e ∙ run, v))
    Compares-step events events' rest sent n m s t e (n', s', inr (run, v)) =
        (n', s', inr (e ∙ run, v))

    pub wait-Compares :
        (ps : List (Option (List ℕ))) (rest : List Event) (seen : List ℕ) (n : ℕ)
        (s : Sys spi.Flash con.Net)
        → IsVerifying spi f0 base room seen (io_of spi con parser s)
        → AreBlocks room (packets ps)
        → base + length seen + length (flatten (packets ps)) ≤ chip.flash_size
        → Compares (arrivals ps ++ rest) rest (seen ++ flatten (packets ps)) n s
    unfolding poll
    wait-Compares [] rest seen n s v bs inside = (
      n,
      s,
      inl (
        refl,
        subst (λ w. IsVerifying spi f0 base room w (io_of spi con parser s)) (sym (append-nil seen))
            v,
      ),
    )
    wait-Compares (none ∷ ps) rest seen n s v bs inside =
        let q = show_progress spi con parser n s in
        Compares-step (idle ∷ arrivals ps ++ rest) (arrivals ps ++ rest) rest
          (seen ++ flatten (packets ps)) n q.0 s q.1
          (wait_step spi con parser idle (arrivals ps ++ rest) n s s v.running refl)
          (wait-Compares ps rest seen q.0 q.1
            (IsShown-IsVerifying seen s q.1 (show_progress-IsShown spi con parser n s) v) bs inside)
    wait-Compares (some p ∷ ps) rest seen n s v bs inside =
        let more = flatten (packets ps) in
        let joined : (seen ++ p) ++ more ≡ seen ++ (p ++ more) = append_assoc seen p more in
        elim (tftp_write-verifies spi chip nor small f0 base room seen p (io_of spi con parser s) v
          bs.0 (omega (arith, length-append p more))) [
            | inl (io', e, v') ↦
                let t = with_io spi con parser s io' in
                let q = show_progress spi con parser n t in
                Compares-step (write_event (packet p) ∷ arrivals ps ++ rest) (arrivals ps ++ rest)
                  rest (seen ++ (p ++ more)) n q.0 s q.1
                  (packet_turn spi con parser p (arrivals ps ++ rest) n s _ io' v.running e)
                  (subst (λ w. Compares (arrivals ps ++ rest) rest w q.0 q.1) joined
                    (wait-Compares ps rest (seen ++ p) q.0 q.1
                      (IsShown-IsVerifying (seen ++ p) t q.1
                        (show_progress-IsShown spi con parser n t) v')
                      bs.1 (omega (arith, length-append p more, length-append seen p))))
            | inr (io', e, h) ↦
                let t = with_io spi con parser s io' in
                let q = show_progress spi con parser n t in
                let h' =
                  IsShown-HasStopped (seen ++ p) t q.1 (show_progress-IsShown spi con parser n t)
                    h in
                (
                  q.0,
                  q.1,
                  inr (
                    packet_turn spi con parser p (arrivals ps ++ rest) n s _ io' v.running e
                        ∙ wait_over spi con parser (arrivals ps ++ rest) q.0 q.1
                            (λ r. cc (h'.ended)),
                    subst (λ w. HasStopped spi f0 base room w (io_of spi con parser q.1)) joined
                        (HasStopped-append spi f0 base room (seen ++ p) more
                          (io_of spi con parser q.1) h'),
                  ),
                )
          ]
