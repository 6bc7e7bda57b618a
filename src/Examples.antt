-- ===== src/Examples.antt =====
-- The properties at concrete inputs, and runs of the definitions.
mod HostRuns
mod ConsoleRuns
mod LoopRuns
mod ScriptRuns
mod FlashRuns
mod SketchRuns
use swagger.Prelude.{
  ℕ, ◌+◌, ◌/◌, ◌%◌, ◌≤◌, ◌≡◌, ◌≢◌, refl, ap, inr, ◌⊎◌, Bool, true, false, some, List, [], ◌∷◌, ◌++◌,
  arith, ltb, ◌==◌, if◌then◌else◌, length, init, All, get_or, replicate,
}
use swagger.Word32.{le_bytes}
use swagger.Cobs.{encode, decode}
use swagger.Cobs.Encode.{IsNonzero, encode_frame}
use swagger.Cobs.RoundTrip.{decode-encode, decode_total}
use swagger.Firmware.Stuff.{stuff_data, unstuff_data}
use swagger.Firmware.Stuff.Encode.{stuff_data-encode}
use swagger.Firmware.Stuff.Decode.{overlay, unstuff_data-decode}
use swagger.Firmware.Reply.{Reply, queue_uint8, queue_uint32, send_reply}
use swagger.Firmware.Reply.Queue.{IsReply, queued, queue_uint_lem}
use swagger.Firmware.Reply.Send.{send_reply-encode}
use swagger.Swd.{
  Wire, calc_parity, to_int, swd_ok, do_read_transaction, do_write_transaction, do_connect,
}
use swagger.Swd.Parity.{ones, calc_parity-ones}
use swagger.Swd.View.{view, Clocks}
use swagger.Swd.Word.{word_bits, Serves}
use swagger.Swd.Read.{do_read_transaction-word}
use swagger.Swd.Ack.{Acknowledges}
use swagger.Swd.Write.{request, write_payload, write_samples, do_write_transaction-Clocks}
use swagger.Swd.Connect.{
  ReadResult, read_payload, read_samples, do_read_transaction-Clocks, do_connect-Clocks,
}
use swagger.Protocol.Status
use swagger.Probe.{
  Link, Driver, status, register, bank, dp_select, invalid_cache, retry, retry_write, read_step,
  write_dp, read_dp, select_ap, read_ap, write_ap, read_memory, write_memory, wait_memory_true,
}
use swagger.Probe.Retry.{Outcome, retries-Outcome}
use swagger.Probe.Select.{SelectRegister, IsCoherent, select_ap-select}
use swagger.Probe.Reach.{created, called, reads_ap, Reached-IsCoherent, write_dp_stale}
use swagger.Probe.Budget.{metered, spent, method_budget}

abbrev message : List ℕ
message = 0x11 ∷ 0x22 ∷ 0x00 ∷ 0x33 ∷ []

abbrev stuffed : List ℕ
stuffed = 0x03 ∷ 0x11 ∷ 0x22 ∷ 0x02 ∷ 0x33 ∷ 0x00 ∷ []

encode-message : encode message ≡ (true, stuffed)
unfolding encode
encode-message = refl

decode-message : decode (init stuffed) ≡ some (true, message ++ (0 ∷ []))
unfolding decode
decode-message = refl

encode_frame_example :
    (body : List ℕ) × (encode message ≡ (true, body ++ (0 ∷ [])))
    × All IsNonzero body
    × (length message + 1 ≤ length body)
    × (length body ≤ length message + 1 + length message / 254)
encode_frame_example = encode_frame message

decode-encode_example : decode (init (encode message).1) ≡ some (true, message ++ (0 ∷ []))
decode-encode_example = decode-encode message

decode_total_example :
    (outdata : List ℕ) × (decode stuffed ≡ some (true, outdata)) × (length outdata ≤ length stuffed)
decode_total_example = decode_total stuffed

stuff_data-encode_example :
    stuff_data message (replicate 6 7 ++ (9 ∷ [])) ≡ some ((encode message).1 ++ (9 ∷ []))
unfolding encode
stuff_data-encode_example = stuff_data-encode message (replicate 6 7) (9 ∷ []) refl

unstuff_data-decode_example :
    (outdata : List ℕ) × (decode (init stuffed) ≡ some (true, outdata))
    × (unstuff_data (init stuffed) (replicate 64 7)
        ≡ some (overlay outdata (replicate 64 7), length outdata))
    × (length outdata ≤ length (init stuffed))
unstuff_data-decode_example = unstuff_data-decode (init stuffed) (replicate 64 7) (omega arith)

abbrev one_queued : Reply
one_queued = record { txbuffer = 0 ∷ 5 ∷ replicate 62 0; txidx = 2 }

abbrev one_queued-IsReply : IsReply one_queued
one_queued-IsReply = record { size = refl; status = omega arith; fits = omega arith }

queue_uint_example :
    (let (done, q') = queue_uint8 6 one_queued in
      IsReply q'
      × (done ≡ ltb one_queued.txidx 64)
      × (queued q'
          ≡ (if ltb one_queued.txidx 64 then queued one_queued ++ (6 ∷ []) else queued one_queued)))
    × (let (done, q') = queue_uint32 0x1020_3040 one_queued in
        IsReply q'
        × (done ≡ ltb one_queued.txidx 60)
        × (queued q' ≡ (
            if ltb one_queued.txidx 60
            then queued one_queued ++ le_bytes 0x1020_3040
            else queued one_queued)))
queue_uint_example = queue_uint_lem 6 0x1020_3040 one_queued one_queued-IsReply

send_reply-encode_example :
    (q' : Reply) × (send_reply (replicate 66 9) 2 one_queued
      ≡ some ((encode (2 ∷ queued one_queued)).1, q'))
    × IsReply q'
    × (queued q' ≡ [])
send_reply-encode_example = send_reply-encode (replicate 66 9) 2 one_queued refl one_queued-IsReply

calc_parity-ones_example : calc_parity 0x8000_0003 ≡ ones 32 0x8000_0003 % 2
calc_parity-ones_example = calc_parity-ones 0x8000_0003

-- A target that answers from a list, one bit for each sample.
abbrev answering : List Bool → Wire → Bool
answering answers w = get_or answers (view w).samples false

abbrev idcode : ℕ
idcode = 0x0BC1_1477

abbrev idcode_answers : List Bool
idcode_answers = false ∷ true ∷ false ∷ false ∷ (word_bits 32 idcode ++ (true ∷ []))

idcode_answers-Serves : Serves (answering idcode_answers) (view []).samples idcode_answers
unfolding view
idcode_answers-Serves w k at_k short = ap (λ t. get_or idcode_answers t false) (omega arith)

do_read_transaction-word_example :
    (do_read_transaction (answering idcode_answers) false 0 0 []).0
    ≡ ((if calc_parity idcode == to_int true then swd_ok else 4), idcode)
do_read_transaction-word_example =
    do_read_transaction-word (answering idcode_answers) false 0 0 idcode false true [] []
      (omega arith) idcode_answers-Serves

do_write_transaction-Clocks_example :
    let r = do_write_transaction (answering (false ∷ true ∷ [])) false 2 0xF0 [] in
    Acknowledges (answering (false ∷ true ∷ [])) [] r.1 r.0 (4 + write_samples r.0)
    × Clocks [] r.1 true
        (request false false false 2 ++ write_payload r.0 0xF0)
        (4 + write_samples r.0)
    × ((view r.1).level ≡ true)
do_write_transaction-Clocks_example =
    do_write_transaction-Clocks (answering (false ∷ true ∷ [])) false 2 0xF0 []

do_read_transaction-Clocks_example :
    let r = do_read_transaction (answering idcode_answers) true 1 7 [] in
    (code : ℕ) × Acknowledges (answering idcode_answers) [] r.1 code (4 + read_samples code)
    × ReadResult code 7 r.0
    × Clocks [] r.1 true (request true true true 1 ++ read_payload code) (4 + read_samples code)
    × ((view r.1).level ≡ true)
do_read_transaction-Clocks_example =
    do_read_transaction-Clocks (answering idcode_answers) true 1 7 []

do_connect-Clocks_example :
    let r = do_connect (answering idcode_answers) [] in
    (code : ℕ) × Acknowledges (answering idcode_answers) [] r.1 code (4 + read_samples code)
    × ReadResult code 0 r.0
    × Clocks [] r.1 true
        (replicate 64 true
          ++ (word_bits 32 0xE79E
              ++ (replicate 64 true
                  ++ (replicate 8 false ++ (request true true false 0 ++ read_payload code)))))
        (4 + read_samples code)
    × ((view r.1).level ≡ true)
do_connect-Clocks_example = do_connect-Clocks (answering idcode_answers) []

-- A target that acknowledges everything and has a SELECT register.
abbrev acknowledge_write : Bool → ℕ → ℕ → ℕ → ℕ × ℕ
acknowledge_write APnDP A23 word s = (swd_ok, if APnDP then s else if A23 == 2 then word else s)

abbrev select_link : Link
select_link = record {
  State = ℕ;
  write_transaction = acknowledge_write;
  read_transaction = λ APnDP A23 old s. ((swd_ok, 0), s);
  connect = λ s. ((swd_ok, idcode), 0);
}

write_other_lem :
    (APnDP : Bool) (A23 word s : ℕ)
    → (APnDP ≡ true) ⊎ (A23 ≢ 2)
    → (acknowledge_write APnDP A23 word s).1 ≡ s
write_other_lem true A23 word s h = refl
write_other_lem false A23 word s h = ground arith

abbrev select_link-SelectRegister : SelectRegister select_link
select_link-SelectRegister = record {
  select = λ s. s;
  write_select = λ word s e. refl;
  write_refused = λ word s ne. absurd (ne refl);
  write_other = write_other_lem;
  read_any = λ APnDP A23 old s. refl;
}

abbrev fresh : Driver select_link
fresh = record { line = 0; ap_cache = invalid_cache }

-- A driver that has selected the bank of the CSW register.
abbrev settled : Driver select_link
settled = record { line = 0; ap_cache = 0 }

retries-Outcome_example :
    (let write = select_link.write_transaction false (register 8) 7 in
      let r = write_dp select_link 8 7 fresh in
      (k : ℕ) × Outcome write 10 fresh.line (r.0, r.1.line) k × (r.1.ap_cache ≡ fresh.ap_cache))
    × (let r = read_dp select_link 8 9 fresh in
        (k : ℕ) × Outcome
          (read_step select_link false (register 8))
          10
          (9, fresh.line)
          (r.0.0, (r.0.1, r.1.line))
          k
        × (r.1.ap_cache ≡ fresh.ap_cache))
retries-Outcome_example = retries-Outcome select_link 8 7 9 fresh

select_ap-settled : (select_ap select_link 0x0100_00FC settled).0 ≡ Status.ok
unfolding select_ap bank write_dp retry_write retry status register
select_ap-settled = refl

select_ap-select_example : (select_ap select_link 0x0100_00FC settled).1.line ≡ bank 0x0100_00FC
select_ap-select_example =
    select_ap-select select_link select_link-SelectRegister 0x0100_00FC settled (inr refl)
      select_ap-settled

Reached-IsCoherent_example :
    IsCoherent select_link select_link-SelectRegister (read_ap select_link 0xFC 0 fresh).1
Reached-IsCoherent_example =
    Reached-IsCoherent select_link select_link-SelectRegister
      (called (created fresh refl) (reads_ap 0xFC 0 fresh))

write_dp-settled : (write_dp select_link dp_select 0xF0 settled).0 ≡ Status.ok
unfolding write_dp retry_write retry status register
write_dp-settled = refl

write_dp_stale_example :
    let d' = (write_dp select_link dp_select 0xF0 settled).1 in
    (select_ap select_link 0x0C d' ≡ (Status.ok, d')) × (d'.line ≢ bank 0x0C)
unfolding bank
write_dp_stale_example =
    write_dp_stale select_link select_link-SelectRegister 0x0C 0xF0 settled refl write_dp-settled
      (omega arith)

abbrev metered_fresh : Driver (metered select_link)
metered_fresh = record { line = (0, 0); ap_cache = invalid_cache }

method_budget_example :
    let m = metered select_link in
    let d = metered_fresh in
    (spent select_link (read_dp m 4 0 d).1 ≤ spent select_link d + 10)
    × (spent select_link (write_dp m 4 1 d).1 ≤ spent select_link d + 10)
    × (spent select_link (write_ap m 4 1 d).1 ≤ spent select_link d + 20)
    × (spent select_link (read_ap m 4 0 d).1 ≤ spent select_link d + 30)
    × (spent select_link (read_memory m 4 0 d).1 ≤ spent select_link d + 400)
    × (spent select_link (write_memory m 4 1 d).1 ≤ spent select_link d + 390)
    × (spent select_link (wait_memory_true m 4 1 3 d).1 ≤ spent select_link d + 4000)
method_budget_example = method_budget select_link 4 1 3 0 metered_fresh
