-- ===== src/Cmd/Transfer/Verify.antt =====
-- The `verify` command: what it answers when the transfer does not start, and when the flash differs.
use panog2_ldr.Base.{
  ℕ, ◌+◌, ◌-◌, ◌^◌, ◌≤◌, ◌<◌, ◌≡◌, ◌≢◌, refl, ap, ◌∙◌, arith, List, [], ◌∷◌, some, length, bytes,
  get_or, get_or-set_self, Outcome, returns, ◌>>=◌, u32, le→ltb, put_at, if◌then◌else◌,
}
use panog2_ldr.Spi.{FlashInfo, Spi, IsNor}
use panog2_ldr.Tftp.{
  Client, Err, err_ok, err_val, err_code, tftp_ok, in_progress, err_compare_fail, reset,
  type_compare, tftp_write, fail, progress_size,
}
use panog2_ldr.Tftp.Flash.{packet}
use panog2_ldr.Tftp.Compare.{IsComparing, tftp_write_compare-fail}
use panog2_ldr.Console.{Console, verify_failed, verified, compare_failed}
use panog2_ldr.Cmd.{Sys, Parser, Result, result_ok, is_ok}
use panog2_ldr.Cmd.Transfer.Wait.{wait_over, wait_step}
use panog2_ldr.Cmd.Transfer.{
  Event, write_event, get_tftp_transfer_vals, start, tftp_transfer_wait, report, wait_and_say,
  verify_cmd, verify_from, verify_wait, io_of, poll, show_progress, or_fault, with_io,
}

module _ (spi : Spi) (con : Console) (parser : Parser) where
  report_clean :
      (s : Sys spi.Flash con.Net)
      → get_or s.ldr.err_msg 0 0 ≡ 0
      → s.ldr.error ≡ tftp_ok
      → report spi con parser 0 s ≡ (result_ok, s)
  unfolding report
  report_clean s m e = ground arith

  report_differs :
      (s : Sys spi.Flash con.Net)
      → get_or s.ldr.err_msg 0 0 ≡ 0
      → s.ldr.error ≡ err_compare_fail
      → report spi con parser 0 s ≡ (
        result_ok,
        record s {
          net = con.print (compare_failed (u32 (s.ldr.flash_adr + s.ldr.bytes_transfered))) s.net;
        },
      )
  unfolding report
  report_differs s m e = ground arith

  -- A wait that is over, and what it says of a clean state.
  said :
      (events : List Event) (s : Sys spi.Flash con.Net)
      → get_or s.ldr.err_msg 0 0 ≡ 0
      → s.ldr.error ≡ tftp_ok
      → wait_and_say spi con parser (λ n. con.print (verified n)) events s
        ≡ returns (result_ok, record s { net = con.print (verified s.ldr.bytes_transfered) s.net })
  unfolding wait_and_say
  said events s m e =
      ap
        (λ r. r >>= λ (q : Result × Sys spi.Flash con.Net). returns (
          if is_ok q.0
          then (q.0, record q.1 { net = con.print (verified q.1.ldr.bytes_transfered) q.1.net })
          else q))
        (wait_over spi con parser events 0 s (λ h. ground arith) ∙ ap returns (report_clean s m e))

  refused :
      (events : List Event) (t : Sys spi.Flash con.Net) (e : Err)
      → e ≢ err_ok
      → 0 < length t.ldr.err_msg
      → verify_wait spi con parser events (e, record t { ldr = reset t.ldr })
        ≡ returns (
          result_ok,
          record t {
            ldr = reset t.ldr;
            net = con.print (verified 0) (con.print (verify_failed e tftp_ok) t.net);
          },
        )
  unfolding verify_wait
  refused events t err_ok ne room = absurd (ne refl)
  refused events t err_val ne room = said events _ (get_or-set_self t.ldr.err_msg 0 0 0 room) refl
  refused events t (err_code c) ne room =
      said events _ (get_or-set_self t.ldr.err_msg 0 0 0 room) refl

-- `verify` whose arguments are read, and whose transfer lwIP refuses to start: the command says so, and
-- then answers RESULT_OK and that no bytes were verified, whatever comes in.
pub verify_cmd-unstarted :
    (spi : Spi) (con : Console) (parser : Parser) (client : Client) (events : List Event)
    (stale line : List ℕ) (s t : Sys spi.Flash con.Net) (e : Err)
    → get_tftp_transfer_vals spi con parser stale line type_compare s ≡ (result_ok, t)
    → start spi con parser client t ≡ (e, record t { ldr = reset t.ldr })
    → e ≢ err_ok
    → 0 < length t.ldr.err_msg
    → verify_cmd spi con parser client events stale line s
      ≡ returns (
        result_ok,
        record t {
          ldr = reset t.ldr;
          net = con.print (verified 0) (con.print (verify_failed e tftp_ok) t.net);
        },
      )
unfolding verify_cmd verify_from
verify_cmd-unstarted spi con parser client events stale line s t e vals begun ne room =
    ap (verify_from spi con parser client events) vals
    ∙ ap (verify_wait spi con parser events) begun
    ∙ refused spi con parser events t e ne room

module _ (spi : Spi) (con : Console) (parser : Parser) where
  wait_turn :
      (e : Event) (events : List Event) (n : ℕ) (s t : Sys spi.Flash con.Net)
      → s.ldr.error ≡ in_progress
      → poll spi con parser e s ≡ returns t
      → show_progress spi con parser n t ≡ (n, t)
      → tftp_transfer_wait spi con parser (e ∷ events) n s
        ≡ tftp_transfer_wait spi con parser events n t
  wait_turn e events n s t running came calm =
      wait_step spi con parser e events n s t running came
      ∙ ap (λ (q : ℕ × Sys spi.Flash con.Net). tftp_transfer_wait spi con parser events q.0 q.1)
          calm

  no_dot :
      (n : ℕ) (s : Sys spi.Flash con.Net)
      → s.ldr.last_progress ≤ s.ldr.bytes_transfered
      → s.ldr.bytes_transfered ≤ s.ldr.last_progress + progress_size
      → show_progress spi con parser n s ≡ (n, s)
  unfolding show_progress
  no_dot n s a b =
      rw
        (le→ltb progress_size (u32 (s.ldr.bytes_transfered + 2 ^ 32 - s.ldr.last_progress))
          (omega arith))
        refl

-- A `verify` transfer under way gets a packet that differs from the flash: the wait ends, reports the
-- address of the first byte that differs, and then answers RESULT_OK and that the bytes before it were
-- verified. (The packet is short of the next dot of the progress line.)
pub verify_differs :
    (spi : Spi) (con : Console) (parser : Parser) (chip : FlashInfo) (payload : List ℕ)
    (s : Sys spi.Flash con.Net)
    → IsNor spi chip
    → IsComparing chip s.ldr (length s.temp) payload
    → s.ldr.last_progress ≤ s.ldr.bytes_transfered
    → s.ldr.bytes_transfered + length payload ≤ s.ldr.last_progress + progress_size
    → get_or s.ldr.err_msg 0 0 ≡ 0
    → bytes (spi.peek s.flash) (s.ldr.flash_adr + s.ldr.bytes_transfered) (length payload) ≢ payload
    → (k : ℕ) × (temp : List ℕ) × (k < length payload)
      × (get_or
            (bytes (spi.peek s.flash) (s.ldr.flash_adr + s.ldr.bytes_transfered) (length payload))
            k
            0
          ≢ get_or payload k 0)
      × (wait_and_say spi con parser
            (λ n. con.print (verified n))
            (write_event (packet payload) ∷ [])
            s
          ≡ returns (
            result_ok,
            record s {
              ldr = record s.ldr {
                bytes_transfered = s.ldr.bytes_transfered + k;
                error = err_compare_fail;
              };
              temp = temp;
              net = con.print (verified (s.ldr.bytes_transfered + k)) (
                  con.print
                    (compare_failed (u32 (s.ldr.flash_adr + (s.ldr.bytes_transfered + k))))
                    s.net);
            },
          ))
unfolding wait_and_say poll
verify_differs spi con parser chip payload s nor v due calm clear ne =
    let (k, below, same, other, e) =
      tftp_write_compare-fail spi chip nor payload (io_of spi con parser s) v ne in
    (k, temp, below, other, ap (λ r. r >>= say_verified) (run k below e))
  where
    temp : List ℕ
    temp =
        put_at s.temp 0
          (bytes (spi.peek s.flash) (s.ldr.flash_adr + s.ldr.bytes_transfered) (length payload))

    stopped : ℕ → Sys spi.Flash con.Net
    stopped k = record s {
      ldr = record s.ldr {
        bytes_transfered = s.ldr.bytes_transfered + k;
        error = err_compare_fail;
      };
      temp = temp;
    }

    say_verified : Result × Sys spi.Flash con.Net → Outcome (Result × Sys spi.Flash con.Net)
    say_verified q = returns (
        if is_ok q.0
        then (q.0, record q.1 { net = con.print (verified q.1.ldr.bytes_transfered) q.1.net })
        else q)

    polled :
        (k : ℕ)
        → tftp_write spi (packet payload) (io_of spi con parser s)
          ≡ some (fail, io_of spi con parser (stopped k))
        → poll spi con parser (write_event (packet payload)) s ≡ returns (stopped k)
    polled k e =
        ap (λ r. or_fault spi con parser r >>= λ q. returns (with_io spi con parser s q.1)) e

    run :
        (k : ℕ)
        → k < length payload
        → tftp_write spi (packet payload) (io_of spi con parser s)
          ≡ some (fail, io_of spi con parser (stopped k))
        → tftp_transfer_wait spi con parser (write_event (packet payload) ∷ []) 0 s
          ≡ returns (
            result_ok,
            record (stopped k) {
              net =
                  con.print
                    (compare_failed (u32 (s.ldr.flash_adr + (s.ldr.bytes_transfered + k))))
                    s.net;
            },
          )
    run k below e =
        wait_turn spi con parser (write_event (packet payload)) [] 0 s (stopped k) v.running
          (polled k e) (no_dot spi con parser 0 (stopped k) (omega arith) (omega arith))
        ∙ wait_over spi con parser [] 0 (stopped k) (λ h. ground arith)
        ∙ ap returns (report_differs spi con parser (stopped k) clear refl)
