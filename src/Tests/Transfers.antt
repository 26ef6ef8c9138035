-- ===== src/Tests/Transfers.antt =====
-- The theorems on file transfers, at concrete inputs.
use panog2_ldr.Base.{
  take, ℕ, ◌+◌, ◌≤◌, ◌<◌, ◌≡◌, ◌≢◌, ◌↔◌, refl, arith, List, [], ◌∷◌, some, length, get_or,
  replicate, bit_and, false,
}
use panog2_ldr.Spi.Nor.{Cells, cells_spi, cells_spi-IsNor, peek_cells}
use panog2_ldr.Tftp.{
  Io, good, type_flash, type_code, type_last, in_progress, err_failed, reset, err_ok, ldr_tftp_init,
  tftp_write, tftp_error, start_transfer,
}
use panog2_ldr.Tftp.Flash.{IsPacket}
use panog2_ldr.Tftp.Chain.{two_buffers, tftp_write_chain}
use panog2_ldr.Tftp.Start.{ldr_tftp_init-started, tftp_error-IsTerminated}
use panog2_ldr.Tests.{small_chip, all_bytes_lem, transfer, busy_client}

-- Ten bytes to the start of the second sector, then twelve that end in the third.
abbrev pub first_packet : List ℕ
first_packet = 1 ∷ 2 ∷ 3 ∷ 4 ∷ 5 ∷ 6 ∷ 7 ∷ 8 ∷ 9 ∷ 10 ∷ []

abbrev pub second_packet : List ℕ
second_packet = 11 ∷ 12 ∷ 13 ∷ 14 ∷ 15 ∷ 16 ∷ 17 ∷ 18 ∷ 19 ∷ 20 ∷ 21 ∷ 22 ∷ []

pub first-IsPacket : IsPacket small_chip first_packet
first-IsPacket = record {
  pos = omega arith;
  fits = omega arith;
  word = omega arith;
  values = all_bytes_lem first_packet refl;
}

pub second-IsPacket : IsPacket small_chip second_packet
second-IsPacket = record {
  pos = omega arith;
  fits = omega arith;
  word = omega arith;
  values = all_bytes_lem second_packet refl;
}

ldr_tftp_init-started_example :
    (ldr_tftp_init busy_client (some (transfer type_flash 16))
      ≡ (err_ok, some (record (reset (transfer type_flash 16)) { error = in_progress })))
    ↔ ((transfer type_flash 16).server_ip ≢ 0)
      × (type_code type_flash ≤ type_last)
      × (busy_client.init_client ≡ err_ok)
      × (start_transfer busy_client (reset (transfer type_flash 16)) type_flash ≡ err_ok)
ldr_tftp_init-started_example = ldr_tftp_init-started busy_client (transfer type_flash 16)

-- A message of 40 characters is cut.
abbrev long_msg : List ℕ
long_msg = replicate 40 65

tftp_error-IsTerminated_example :
    (text : List ℕ) × (tftp_error long_msg 40 (transfer type_flash 16)
      ≡ some (record (transfer type_flash 16) { err_msg = text; error = err_failed }))
    × (length text ≡ 33)
    × (take 32 text ≡ replicate 32 65)
    × (get_or text 32 1 ≡ 0)
tftp_error-IsTerminated_example =
    tftp_error-IsTerminated long_msg 40 (transfer type_flash 16) refl (omega arith)

-- A transfer without auto erase, on an erased chip, and a packet in two buffers.
abbrev plain_flash : Io Cells
plain_flash = record {
  ldr = record (transfer type_flash 16) { auto_erase = false };
  ram = [];
  flash = λ x. 255;
}

tftp_write_chain_example :
    (io' : Io Cells) × (tftp_write
        (cells_spi small_chip)
        (two_buffers (15 ∷ 15 ∷ []) (60 ∷ []))
        plain_flash
      ≡ some (good, io'))
    × (io'.ldr.bytes_transfered ≡ 3)
    × ((i : ℕ)
        → i < 2
        → i < 1
        → peek_cells io'.flash (16 + i)
          ≡ bit_and (bit_and 255 (get_or (15 ∷ 15 ∷ []) i 0)) (get_or (60 ∷ []) i 0))
    × ((i : ℕ) → 2 ≤ i → 1 ≤ i → peek_cells io'.flash (16 + i) ≡ 255)
tftp_write_chain_example =
    tftp_write_chain (cells_spi small_chip) small_chip 16 (15 ∷ 15 ∷ []) (60 ∷ []) plain_flash refl
      (cells_spi-IsNor small_chip) (omega arith) refl refl refl refl (omega arith) (omega arith)
      (omega arith) (omega arith)
