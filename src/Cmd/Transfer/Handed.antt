-- ===== src/Cmd/Transfer/Handed.antt =====
-- What the wait of a `save` transfer hands to lwIP's client.
use panog2_ldr.Base.{
  ℕ, ◌+◌, ◌^◌, ◌<◌, ◌≡◌, refl, ap, ◌∙◌, List, [], ◌∷◌, ◌++◌, some, none, Option, Outcome, returns,
  if◌then◌else◌,
}
use panog2_ldr.Spi.{Spi}
use panog2_ldr.Tftp.{TransferResult, tftp_ok, tftp_close, in_progress, is_in_progress, tftp_read}
use panog2_ldr.Console.{Console}
use panog2_ldr.Cmd.{Sys, Parser}
use panog2_ldr.Cmd.Transfer.{Event, idle, read_event, close_event, io_of, poll, show_progress}
use panog2_ldr.Cmd.Transfer.Packets.{show_progress-IsShown}

-- The polls of a `save`: a request for some bytes, or nothing.
abbrev pub requests : List (Option ℕ) → List Event
requests [] = []
requests (none ∷ rs) = idle ∷ requests rs
requests (some len ∷ rs) = read_event len ∷ requests rs

abbrev pub asked_for : List (Option ℕ) → ℕ
asked_for [] = 0
asked_for (none ∷ rs) = asked_for rs
asked_for (some len ∷ rs) = len + asked_for rs

-- The client's requests fit its 16 bits.
abbrev pub AreRequests : List (Option ℕ) → Type 0
AreRequests [] = Unit
AreRequests (none ∷ rs) = AreRequests rs
AreRequests (some len ∷ rs) = (len < 2 ^ 16) × AreRequests rs

module _ (spi : Spi) (con : Console) (parser : Parser) where
  -- What a callback puts into the client's buffer.
  abbrev pub told : Event → Sys spi.Flash con.Net → List ℕ
  told (read_event len) s = elim (tftp_read spi len (io_of spi con parser s)).0 [
    | none ↦ []
    | some bs ↦ bs
  ]
  told _ s = []

  -- What the callbacks of a wait put there, joined.
  abbrev pub handed : List Event → ℕ → Sys spi.Flash con.Net → List ℕ
  handed [] n s = []
  handed (e ∷ events) n s =
      let rest : List ℕ = elim (poll spi con parser e s) [
        | returns t ↦ let q = show_progress spi con parser n t in told e s ++ handed events q.0 q.1
        | _ ↦ []
      ] in
      if is_in_progress s.ldr.error then rest else []

  pub handed_step :
      (e : Event) (events : List Event) (n : ℕ) (s t : Sys spi.Flash con.Net)
      → s.ldr.error ≡ in_progress
      → poll spi con parser e s ≡ returns t
      → handed (e ∷ events) n s
        ≡ told e s
          ++ handed events (show_progress spi con parser n t).0 (show_progress spi con parser n t).1
  handed_step e events n s t running came =
      ap (λ b. if is_in_progress b then turn (poll spi con parser e s) else []) running
      ∙ ap turn came
    where
      turn : Outcome (Sys spi.Flash con.Net) → List ℕ
      turn o = elim o [
        | returns u ↦
            told e s
            ++ handed events (show_progress spi con parser n u).0
                (show_progress spi con parser n u).1
        | _ ↦ []
      ]

  handed_over :
      (events : List Event) (n : ℕ) (s : Sys spi.Flash con.Net)
      → s.ldr.error ≡ tftp_ok
      → handed events n s ≡ []
  handed_over [] n s h = refl
  handed_over (e ∷ events) n s h = ap go h
    where
      turn : List ℕ
      turn = elim (poll spi con parser e s) [
        | returns t ↦
            told e s
            ++ handed events (show_progress spi con parser n t).0
                (show_progress spi con parser n t).1
        | _ ↦ []
      ]

      go : TransferResult → List ℕ
      go r = if is_in_progress r then turn else []

  pub handed_closed :
      (rest : List Event) (n : ℕ) (s : Sys spi.Flash con.Net)
      → s.ldr.error ≡ in_progress
      → handed (close_event ∷ rest) n s ≡ []
  unfolding poll tftp_close
  handed_closed rest n s running =
      let t = record s { ldr = record s.ldr { error = tftp_ok } } in
      let q = show_progress spi con parser n t in
      let closed : poll spi con parser close_event s ≡ returns t =
        ap
          (λ b. returns (record s {
            ldr = if is_in_progress b then record s.ldr { error = tftp_ok } else s.ldr;
          }))
          running in
      handed_step close_event rest n s t running closed
      ∙ handed_over rest q.0 q.1 (
          ap (λ (u : Sys spi.Flash con.Net). u.ldr.error)
            (show_progress-IsShown spi con parser n t).same)
