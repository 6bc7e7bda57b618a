-- ===== src/Targets/Verify/Flash.antt =====
-- `verifyFlash`: its loop over the groups of six words.
use swagger.Prelude.{
  ℕ, zero, suc, ◌+◌, ◌-◌, ◌*◌, ◌/◌, ◌^◌, ◌≤◌, ◌<◌, ◌≡◌, refl, inl, inr, Bool, true, false, Option,
  none, some, List, arith, ◌==◌, ltb, if◌then◌else◌, Bool-cases, length,
}
use swagger.Probe.{Link, Driver}
use swagger.Protocol.Status
use swagger.Host.Packet.{SerialPort}
use swagger.Host.Script.{SquirrelVm, Session}
use swagger.Targets.{minus_one}
use swagger.Targets.Turn.{Bench, IsAtRest}
use swagger.Targets.Verify.{
  Contents, words, code, compare_words, read_memory_words, verify_round, word_count, verify_loop,
  verify_flash,
}
use swagger.Targets.Verify.Words.{lows, read_words, read_memory_words-read_words}
use swagger.Targets.Verify.Matches.{
  file_words, length-file_words, matches, matches_empty, Says, compare_words-Says, failed-matches,
  binary_size, binary_matches,
}

word_count_bounds :
    (left : ℕ) → (word_count left ≤ 6) × (word_count left ≤ left) × (1 ≤ left → 1 ≤ word_count left)
unfolding word_count
word_count_bounds left = (ground arith, ground arith, λ h. ground (arith, h))

-- 0, or -1.
abbrev pub verdict : Bool → ℕ
verdict matched = if matched then 0 else minus_one

module _ (m : SquirrelVm) (q : SerialPort) (l : Link) (b : Bench m q l) where
  -- A script returns the verdict, with the programmer ready.
  unfoldable pub Judges : Option (ℕ × Session m q) → Bool → Type 0
  Judges o matched =
      (s' : Session m q) × (d' : Driver l) × (o ≡ some (verdict matched, s'))
      × IsAtRest m q l b s' d'

  verify_loop_step :
      (rounds left address : ℕ) (blob : List ℕ) (s : Session m q) (read : Contents × Session m q)
      → ltb 0 left ≡ true
      → read_memory_words m b.frames q b.fuel_read b.c address (word_count left) s ≡ some read
      → verify_loop m b.frames q b.fuel_read b.c (suc rounds) left address blob s
        ≡ verify_round m b.frames q b.fuel_read b.c
            (verify_loop m b.frames q b.fuel_read b.c rounds
              (left - word_count left)
              (address + word_count left * 4))
            (word_count left)
            blob
            read
  unfolding verify_loop
  verify_loop_step rounds left address blob s read more e = rw (verify_loop, more, e) refl

  compared-Judges :
      (next : List ℕ → Session m q → Option (ℕ × Session m q)) (count address : ℕ)
      (blob contents : List ℕ) (s : Session m q) (d : Driver l) (matched : Bool)
      (o : Option (List ℕ))
      → IsAtRest m q l b s d
      → compare_words count blob contents ≡ o
      → Says l count address blob d matched o
      → ((blob' : List ℕ)
          → length (file_words blob) ≡ count + length (file_words blob')
          → Judges (next blob' s) (matches l (file_words blob') (address + count * 4) d))
      → Judges
          (verify_round m b.frames q b.fuel_read b.c next count blob (words contents, s))
          matched
  unfolding Judges Says verify_round
  compared-Judges next count address blob contents s d matched none rest e says later =
      (s, d, rw (verify_round, e, says) refl, rest)
  compared-Judges next count address blob contents s d matched (some blob') rest e (same, counted)
        later =
      let (s', d', ends, at_rest) = later blob' counted in
      (s', d', rw (verify_round, e, same) ends, at_rest)

  failed-Judges :
      (next : List ℕ → Session m q → Option (ℕ × Session m q)) (count : ℕ) (blob : List ℕ)
      (status : ℕ) (s : Session m q) (d : Driver l)
      → IsAtRest m q l b s d
      → Judges (verify_round m b.frames q b.fuel_read b.c next count blob (code status, s)) false
  unfolding Judges verify_round
  failed-Judges next count blob status s d rest = (s, d, refl, rest)

  verify_round-Judges :
      (next : List ℕ → Session m q → Option (ℕ × Session m q)) (count address : ℕ) (blob : List ℕ)
      (s : Session m q) (d : Driver l)
      → count ≤ length (file_words blob)
      → IsAtRest m q l b s (read_words l count address d).1.1
      → ((blob' : List ℕ)
          → length (file_words blob) ≡ count + length (file_words blob')
          → Judges (next blob' s) (
              matches l
                (file_words blob')
                (address + count * 4)
                (read_words l count address d).1.1))
      → Judges
          (verify_round m b.frames q b.fuel_read b.c next count blob (
            if (read_words l count address d).0 == Status.ok
                then words (lows (read_words l count address d).1.0)
                else code (read_words l count address d).0,
            s,
          ))
          (matches l (file_words blob) address d)
  verify_round-Judges next count address blob s d within rest later =
      let (status, (ws, d')) = read_words l count address d in
      elim (Bool-cases (status == Status.ok)) [
        | inl good ↦ rw good (
            compared-Judges next count address blob (lows ws) s d' _ _ rest refl
              (compare_words-Says l count address blob d within good) later)
        | inr bad ↦
            rw (bad, failed-matches l count address blob d within bad)
              (failed-Judges next count blob status s d' rest)
      ]

  ended-Judges :
      (rounds address : ℕ) (blob : List ℕ) (s : Session m q) (d : Driver l)
      → IsAtRest m q l b s d
      → length (file_words blob) ≡ 0
      → Judges
          (verify_loop m b.frames q b.fuel_read b.c rounds
            (length (file_words blob))
            address
            blob
            s)
          (matches l (file_words blob) address d)
  unfolding Judges verify_loop
  ended-Judges zero address blob s d rest e =
      rw (matches_empty l (file_words blob) address d e, e) (s, d, refl, rest)
  ended-Judges (suc rounds) address blob s d rest e =
      rw (matches_empty l (file_words blob) address d e, e) (s, d, refl, rest)

  verify_loop-Judges :
      (rounds address : ℕ) (blob : List ℕ) (s : Session m q) (d : Driver l)
      → IsAtRest m q l b s d
      → length (file_words blob) ≤ rounds
      → address + length (file_words blob) * 4 ≤ 2 ^ 32
      → Judges
          (verify_loop m b.frames q b.fuel_read b.c rounds
            (length (file_words blob))
            address
            blob
            s)
          (matches l (file_words blob) address d)
  verify_loop-Judges zero address blob s d rest enough small =
      ended-Judges zero address blob s d rest (omega arith)
  verify_loop-Judges (suc rounds) address blob s d rest enough small =
      let left = length (file_words blob) in
      let count = word_count left in
      let (few, within, some_words) = word_count_bounds left in
      elim (Bool-cases (ltb 0 left)) [
        | inr none_left ↦
            ended-Judges (suc rounds) address blob s d rest (ground (arith, none_left))
        | inl more ↦
            let (s1, reads, at_rest) =
              read_memory_words-read_words m q l b count address s d rest few (omega arith) in
            let positive : 1 ≤ count = some_words (ground (arith, more)) in
            rw (verify_loop_step rounds left address blob s _ more reads) (
              verify_round-Judges _ count address blob s1 d within at_rest (λ blob' counted.
                let fewer : length (file_words blob') ≡ left - count = omega (arith, counted) in
                rw fewer at (
                  verify_loop-Judges rounds (address + count * 4) blob' s1 _ at_rest
                    (omega (arith, positive, counted)) (omega (arith, counted)))))
      ]

  -- verifyFlash of a script, with the programmer ready, returns 0 where the driver of the firmware
  -- reads every word from address 0 on without an error, and each is the word of the file, taken as a
  -- signed number of 32 bits; and else it returns -1, also where the file cannot be opened. The
  -- programmer is ready again. (The file has less than 2^32 bytes, and the line is as documented.)
  pub verify_flash-matches :
      (binary : Option (List ℕ)) (s : Session m q) (d : Driver l)
      → IsAtRest m q l b s d
      → binary_size binary < 2 ^ 32
      → Judges (verify_flash m b.frames q b.fuel_read b.c binary s) (binary_matches l binary d)
  unfolding verify_flash binary_size binary_matches Judges
  verify_flash-matches none s d rest small = (s, d, refl, rest)
  verify_flash-matches (some blob) s d rest small = rw (length-file_words blob) at (
      verify_loop-Judges (length blob / 4) 0 blob s d rest (omega (arith, length-file_words blob))
        (omega (arith, length-file_words blob)))
