-- ===== src/Cmd/Transfer/Save.antt =====
-- The `save` command, from its arguments to its answer, and what it hands to lwIP's client.
use panog2_ldr.Base.{
  ℕ, ◌+◌, ◌-◌, ◌^◌, ◌≤◌, ◌<◌, ◌≡◌, refl, sym, subst, ap, ap₂, ◌∙◌, arith, List, [], ◌∷◌, ◌++◌, some,
  none, Option, min, get_or, bytes, bytes-add, returns,
}
use panog2_ldr.Spi.{FlashInfo, Spi, IsNor}
use panog2_ldr.Tftp.{
  Ldr, Io, Client, err_ok, type_save, in_progress, tftp_read, advance, ldr_tftp_init,
}
use panog2_ldr.Tftp.Start.{started, reset-no_message}
use panog2_ldr.Tftp.Save.{IsSaving, read_one}
use panog2_ldr.Console.{Console, saved}
use panog2_ldr.Cmd.{Sys, Parser, result_ok}
use panog2_ldr.Cmd.Transfer.{
  Event, idle, read_event, close_event, get_tftp_transfer_vals, tftp_transfer_wait, save_cmd, io_of,
  with_io, poll, show_progress,
}
use panog2_ldr.Cmd.Transfer.Values.{save_vals}
use panog2_ldr.Cmd.Transfer.Handed.{
  requests, asked_for, AreRequests, told, handed, handed_step, handed_closed,
}
use panog2_ldr.Cmd.Transfer.Ends.{transfer_cmd-ends}
use panog2_ldr.Cmd.Transfer.Wait.{wait_step}
use panog2_ldr.Cmd.Transfer.Packets.{show_progress-IsShown}

module _ (spi : Spi) (con : Console) (parser : Parser) where
  module _ (chip : FlashInfo) (nor : IsNor spi chip) (f0 : spi.Flash) (base total : ℕ) where
    -- A `save` transfer of `total` bytes from `base` on, of which `count` have been handed over.
    pub record IsGiving (count : ℕ) (io : Io spi.Flash) : Type 0 where
      pub saving : IsSaving chip io.ldr
      pub running : io.ldr.error ≡ in_progress
      pub no_message : get_or io.ldr.err_msg 0 0 ≡ 0
      pub start : io.ldr.flash_adr ≡ base
      pub size : io.ldr.send_len ≡ total
      pub given : io.ldr.bytes_transfered ≡ count
      pub unchanged : io.flash ≡ f0

    dot_keeps :
        (count n : ℕ) (s : Sys spi.Flash con.Net)
        → IsGiving count (io_of spi con parser s)
        → IsGiving count (io_of spi con parser (show_progress spi con parser n s).1)
    dot_keeps count n s v =
        let h = show_progress-IsShown spi con parser n s in
        subst (λ u. IsGiving count (io_of spi con parser u)) (sym h.same)
          (record {
            saving = record {
              kind = v.saving.kind;
              sent = v.saving.sent;
              region = v.saving.region;
              small = v.saving.small;
            };
            running = v.running;
            no_message = v.no_message;
            start = v.start;
            size = v.size;
            given = v.given;
            unchanged = v.unchanged;
          })

    -- A request gets the next bytes of the region, or what is left.
    read_gives :
        (len count : ℕ) (io : Io spi.Flash)
        → IsGiving count io
        → len < 2 ^ 16
        → (tftp_read spi len io ≡ (
          some (bytes (spi.peek f0) (base + count) (min len (total - count))),
          advance (min len (total - count)) io,
        ))
          × IsGiving (count + min len (total - count)) (advance (min len (total - count)) io)
    read_gives len count io v h = (
      read_one spi chip nor len io v.saving h
          ∙ ap₂
              (λ m k. (
                some (bytes (spi.peek m) (io.ldr.flash_adr + io.ldr.bytes_transfered) k),
                advance k io,
              ))
              v.unchanged (omega (arith, v.size, v.given))
          ∙ ap
              (λ a. (
                some (bytes (spi.peek f0) a (min len (total - count))),
                advance (min len (total - count)) io,
              ))
              (omega (arith, v.start, v.given)),
      record {
        saving = record {
          kind = v.saving.kind;
          sent = omega (arith, v.saving.sent, v.size, v.given);
          region = v.saving.region;
          small = v.saving.small;
        };
        running = v.running;
        no_message = v.no_message;
        start = v.start;
        size = v.size;
        given = omega (arith, v.given);
        unchanged = v.unchanged;
      },
    )

    -- The wait gets to the end of the transfer, and has handed over the next bytes of the region.
    pub wait_gives :
        (rs : List (Option ℕ)) (rest : List Event) (n count : ℕ) (s : Sys spi.Flash con.Net)
        → IsGiving count (io_of spi con parser s)
        → AreRequests rs
        → (n' : ℕ) × (s' : Sys spi.Flash con.Net) × (tftp_transfer_wait spi con parser
              (requests rs ++ close_event ∷ rest)
              n
              s
            ≡ tftp_transfer_wait spi con parser (close_event ∷ rest) n' s')
          × IsGiving (count + min (asked_for rs) (total - count)) (io_of spi con parser s')
          × (handed spi con parser (requests rs ++ close_event ∷ rest) n s
              ≡ bytes (spi.peek f0) (base + count) (min (asked_for rs) (total - count)))
    unfolding poll
    wait_gives [] rest n count s v ok =
        let none_asked : 0 ≡ min 0 (total - count) = omega arith in
        (
          n,
          s,
          refl,
          subst (λ c. IsGiving c (io_of spi con parser s)) (omega arith) v,
          handed_closed spi con parser rest n s v.running
              ∙ ap (bytes (spi.peek f0) (base + count)) none_asked,
        )
    wait_gives (none ∷ rs) rest n count s v ok =
        let q = show_progress spi con parser n s in
        let (n', s', run, v', got) = wait_gives rs rest q.0 count q.1 (dot_keeps count n s v) ok in
        (
          n',
          s',
          wait_step spi con parser idle (requests rs ++ close_event ∷ rest) n s s v.running refl
              ∙ run,
          v',
          handed_step spi con parser idle (requests rs ++ close_event ∷ rest) n s s v.running refl
              ∙ got,
        )
    wait_gives (some len ∷ rs) rest n count s v ok =
        let m = min len (total - count) in
        let (e, v1) = read_gives len count (io_of spi con parser s) v ok.0 in
        let t = with_io spi con parser s (advance m (io_of spi con parser s)) in
        let q = show_progress spi con parser n t in
        let events = requests rs ++ close_event ∷ rest in
        let (n', s', run, v', got) =
          wait_gives rs rest q.0 (count + m) q.1 (dot_keeps (count + m) n t v1) ok.1 in
        let came : poll spi con parser (read_event len) s ≡ returns t =
          ap (λ (r : Option (List ℕ) × Io spi.Flash). returns (with_io spi con parser s r.1)) e in
        let put : told spi con parser (read_event len) s ≡ bytes (spi.peek f0) (base + count) m =
          ap (λ (r : Option (List ℕ) × Io spi.Flash). elim r.0 [ none ↦ [] | some bs ↦ bs ]) e in
        let left = min (asked_for rs) (total - (count + m)) in
        let all : m + left ≡ min (len + asked_for rs) (total - count) = omega arith in
        (
          n',
          s',
          wait_step spi con parser (read_event len) events n s t v.running came ∙ run,
          subst (λ c. IsGiving c (io_of spi con parser s')) (omega (arith, all)) v',
          handed_step spi con parser (read_event len) events n s t v.running came
              ∙ ap₂ ◌++◌ put got
              ∙ sym (
                  bytes-add (spi.peek f0) (base + count) (base + (count + m)) _ m (omega arith) left
                    all),
        )

-- `save` whose arguments name a region of the flash and whose transfer starts: if the polls of its wait bring
-- requests of lwIP's client, of any sizes that fit 16 bits, with any polls that bring nothing between
-- them, and then the end of the transfer, the client has been handed the bytes of the region from its
-- start, as many as it asked for, but none from behind the region; the command answers RESULT_OK, says
-- last how many that were, and leaves the flash as it is.
pub save_cmd_lem :
    (spi : Spi) (con : Console) (parser : Parser) (chip : FlashInfo) (client : Client)
    (rs : List (Option ℕ)) (rest : List Event) (stale line : List ℕ) (s t : Sys spi.Flash con.Net)
    (q : Ldr)
    → IsNor spi chip
    → chip.flash_size < 2 ^ 31
    → get_tftp_transfer_vals spi con parser stale line type_save s ≡ (result_ok, t)
    → ldr_tftp_init client (some t.ldr) ≡ (err_ok, some q)
    → t.ldr.transfer_type ≡ type_save
    → t.ldr.flash_adr + t.ldr.send_len ≤ chip.flash_size
    → AreRequests rs
    → let events = requests rs ++ close_event ∷ rest in
      let count = min (asked_for rs) t.ldr.send_len in
      (s' : Sys spi.Flash con.Net) × (n : con.Net) × (save_cmd spi con parser client events stale
          line s
        ≡ returns (result_ok, s'))
      × (s'.net ≡ con.print (saved count) n)
      × (s'.flash ≡ s.flash)
      × (handed spi con parser events 0 (record t { ldr = q })
          ≡ bytes (spi.peek s.flash) t.ldr.flash_adr count)
unfolding save_cmd
save_cmd_lem spi con parser chip client rs rest stale line s t q nor small vals init kind region
      ok =
    let u = record t { ldr = q } in
    let clean = started client t.ldr q init in
    let kept = save_vals spi con parser stale line s t vals in
    let begin : IsGiving spi con parser chip nor t.flash t.ldr.flash_adr t.ldr.send_len 0
        (io_of spi con parser u) =
      subst
        (λ l.
          IsGiving spi con parser chip nor t.flash t.ldr.flash_adr t.ldr.send_len 0
            (record { ldr = l; ram = t.temp; flash = t.flash }))
        (sym clean)
        (record {
          saving = record { kind = kind; sent = omega arith; region = region; small = small };
          running = refl;
          no_message = reset-no_message t.ldr;
          start = refl;
          size = refl;
          given = refl;
          unchanged = refl;
        }) in
    let (k, s1, run, v, got) =
      wait_gives spi con parser chip nor t.flash t.ldr.flash_adr t.ldr.send_len rs rest 0 0 u begin
        ok in
    let (s', n, ran, shown, same) =
      transfer_cmd-ends spi con parser client type_save (λ c. con.print (saved c))
        (requests rs ++ close_event ∷ rest) rest stale line s t s1 q k vals init run v.running
        v.no_message in
    (
      s',
      n,
      ran,
      shown ∙ ap (λ c. con.print (saved c) n) (v.given ∙ (omega arith)),
      same ∙ v.unchanged ∙ kept,
      got
          ∙ ap₂ (bytes (spi.peek t.flash)) (omega arith) (omega arith)
          ∙ ap (λ f. bytes (spi.peek f) t.ldr.flash_adr (min (asked_for rs) t.ldr.send_len)) kept,
    )
