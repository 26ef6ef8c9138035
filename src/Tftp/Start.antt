-- ===== src/Tftp/Start.antt =====
-- `ldr_tftp_init`, `tftp_close` and `tftp_error`: how a transfer starts and ends.
use panog2_ldr.Base.{
  ℕ, ◌+◌, ◌≤◌, ◌≡◌, ◌≢◌, ◌⊎◌, ◌↔◌, arith, refl, List, [], ◌∷◌, set, some, length, length-put_at,
  length-set, get_or, get_or-set_self, put_at, take, take-set_before, take-put_at, length-take, min,
  ap, sym, ◌∙◌, ltb, if◌then◌else◌,
}
use panog2_ldr.Tftp.{
  Ldr, Client, Err, err_ok, err_val, in_progress, reset, start_transfer, type_code, type_last,
  max_err_msg_len, ldr_tftp_init, tftp_error, err_failed,
}

-- A transfer that started is in progress from a clean state.
pub started :
    (client : Client) (p q : Ldr)
    → ldr_tftp_init client (some p) ≡ (err_ok, some q)
    → q ≡ record (reset p) { error = in_progress }
unfolding ldr_tftp_init
started client p q h = ground arith

-- A reset clears the message.
pub reset-no_message : (p : Ldr) → get_or (reset p).err_msg 0 0 ≡ 0
reset-no_message p = cleared p.err_msg
  where
    cleared : (xs : List ℕ) → get_or (set xs 0 0) 0 0 ≡ 0
    cleared [] = refl
    cleared (x ∷ xs) = refl

-- `ldr_tftp_init` starts a transfer exactly if a server is set, the type is in range, and lwIP accepts
-- both the client and the request; the transfer is then in progress from a clean state.
pub ldr_tftp_init-started :
    (client : Client) (p : Ldr)
    → (ldr_tftp_init client (some p) ≡ (err_ok, some (record (reset p) { error = in_progress })))
      ↔ (p.server_ip ≢ 0)
        × (type_code p.transfer_type ≤ type_last)
        × (client.init_client ≡ err_ok)
        × (start_transfer client (reset p) p.transfer_type ≡ err_ok)
unfolding ldr_tftp_init
ldr_tftp_init-started client p = ground arith

-- A transfer that did not start is not in progress afterwards, unless it was refused before anything
-- was touched.
pub ldr_tftp_init-refused :
    (client : Client) (p q : Ldr) (e : Err)
    → ldr_tftp_init client (some p) ≡ (e, some q)
    → e ≢ err_ok
    → (e ≡ err_val) × (q ≡ p) ⊎ (q ≡ reset p)
unfolding ldr_tftp_init
ldr_tftp_init-refused client p q e h ne = ground arith

-- An error of the peer, whatever size it claims, whose message is as long as the size, or has 32 characters
-- at least: its copy stays within the array, which then starts with the first 32 characters of the
-- message, or with the whole of a shorter one, and ends with a 0; nothing else of the transfer changes,
-- but that it has failed.
pub tftp_error-IsTerminated :
    (msg : List ℕ) (size : ℕ) (p : Ldr)
    → length p.err_msg ≡ max_err_msg_len + 1
    → min size max_err_msg_len ≤ length msg
    → (text : List ℕ) × (tftp_error msg size p
        ≡ some (record p { err_msg = text; error = err_failed }))
      × (length text ≡ max_err_msg_len + 1)
      × (take (min size max_err_msg_len) text ≡ take (min size max_err_msg_len) msg)
      × (get_or text max_err_msg_len 1 ≡ 0)
unfolding tftp_error
tftp_error-IsTerminated msg size p room enough = (
  set copied max_err_msg_len 0,
  ground arith,
  length-set copied max_err_msg_len 0 ∙ length-put_at p.err_msg 0 (take n msg) ∙ room,
  ap (λ k. take k (set copied max_err_msg_len 0)) (sym clamped)
      ∙ take-set_before copied n max_err_msg_len 0 (omega (arith, clamped))
      ∙ take-put_at p.err_msg (take n msg) n (length-take n msg ∙ omega (arith, clamped, enough))
          (omega (arith, clamped, room))
      ∙ ap (λ k. take k msg) clamped,
  get_or-set_self copied max_err_msg_len 0 1
      (omega (arith, length-put_at p.err_msg 0 (take n msg), room)),
)
  where
    n : ℕ
    n = if ltb max_err_msg_len size then max_err_msg_len else size

    copied : List ℕ
    copied = put_at p.err_msg 0 (take n msg)

    clamped : n ≡ min size max_err_msg_len
    clamped = ground arith
