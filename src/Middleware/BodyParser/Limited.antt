-- ===== src/Middleware/BodyParser/Limited.antt =====
-- `maxBytesReader` keeps the contract of `io.Reader`, for the first bytes of what it reads.
use elton.Common.{
  ℕ, zero, suc, ◌+◌, ◌-◌, ◌<◌, ◌≤◌, ◌≡◌, refl, sym, ap, subst, ◌∙◌, true, false, Option, none, some,
  [], ◌++◌, Text, take, ltb, leb, ◌==◌, if◌then◌else◌, length, append-nil, length-append,
  length-take, arith, Option-cases, inl, inr, Bool-cases, take_beyond, take_all, take_within,
}
use elton.Reading.{Stop, Chunk, Read, IsReader}
use elton.Middleware.BodyParser.{MaxBytes, too_large, within, read_max}

-- A reader that, once it has returned an error, returns no byte and that error again.
pub record StaysEnded {S : Type 0} (read : Read S) : Type 0 where
  pub stays :
      (n m : ℕ) (s : S) (e : Stop)
      → 0 < n
      → (read n s).stop ≡ some e
      → ((read m (read n s).reader).data_read ≡ []) × ((read m (read n s).reader).stop ≡ some e)

-- What it still delivers, and how it ends.
module _ {S : Type 0} (rest : S → Text) (ending : S → Stop) where
  abbrev pub limited_rest : MaxBytes S → Text
  limited_rest l = elim l.err [ none ↦ take l.remaining (rest l.inner) | some e ↦ [] ]

  abbrev pub limited_ending : MaxBytes S → Stop
  limited_ending l = elim l.err [
    | none ↦ if leb (length (rest l.inner)) l.remaining then ending l.inner else too_large l.max
    | some e ↦ e
  ]

leb_shift : (t d r left : ℕ) → t ≡ d + r → d ≤ left → leb r (left - d) ≡ leb t left
leb_shift t d r left e h = ground arith

module _ {S : Type 0} (read : Read S) (rest : S → Text) (ending : S → Stop)
    (contract : IsReader read rest ending) where
  abbrev held : S → ℕ → ℕ → Option Stop → MaxBytes S
  held s max left err = record { inner = s; max = max; remaining = left; err = err }

  abbrev live : S → ℕ → ℕ → MaxBytes S
  live s max left = held s max left none

  -- The room that is passed on.
  abbrev asked : ℕ → ℕ → ℕ
  asked left n = if ltb (left + 1) n then left + 1 else n

  asked_lem :
      (left n : ℕ) → 0 < n → (0 < asked left n) × (asked left n ≤ n) × (asked left n ≤ left + 1)
  asked_lem left n h = (grind arith, grind arith, grind arith)

  GoesOn : MaxBytes S → Chunk (MaxBytes S) → Type 0
  GoesOn l c =
      (0 < length c.data_read)
      × (limited_rest rest ending l ≡ c.data_read ++ limited_rest rest ending c.reader)
      × (limited_ending rest ending c.reader ≡ limited_ending rest ending l)

  within-fits :
      (l : MaxBytes S) (n : ℕ) (c : Chunk S)
      → length c.data_read ≤ n
      → length (within read l c).data_read ≤ n
  within-fits l n c h = elim (Bool-cases (leb (length c.data_read) l.remaining)) [
    | inl e ↦ rw e h
    | inr e ↦
        let over : l.remaining ≤ length c.data_read = ground arith in
        rw e (omega (arith, h, over, length-take l.remaining c.data_read over))
  ]

  within-GoesOn :
      (s : S) (max left n m : ℕ)
      → 0 < m
      → (within read (live s max left) (read m s)).stop ≡ none
      → GoesOn (live s max left) (within read (live s max left) (read m s))
  unfolding GoesOn
  within-GoesOn s max left n m room e = elim (Bool-cases (leb (length (read m s).data_read) left)) [
    | inr over ↦ ground arith
    | inl below ↦
        let go : (read m s).stop ≡ none = ground arith in
        let (some_bytes, same, end) = contract.goes_on m s room go in
        let fits : length (read m s).data_read ≤ left = ground arith in
        let total = ap length same ∙ length-append (read m s).data_read (rest (read m s).reader) in
        rw (below, go)
          (
            some_bytes,
            rw same (take_beyond (read m s).data_read (rest (read m s).reader) left fits),
            rw
                (
                  end,
                  leb_shift (length (rest s)) (length (read m s).data_read)
                      (length (rest (read m s).reader)) left total fits,
                )
                refl,
          )
  ]

  -- More bytes than are left to read: the first of them, and the error.
  beyond :
      (s : S) (max left : ℕ) (d more : Text)
      → rest s ≡ d ++ more
      → leb (length d) left ≡ false
      → (take left (rest s) ≡ take left d)
        × (limited_ending rest ending (live s max left) ≡ too_large max)
  beyond s max left d more same over =
      let long : left ≤ length d = ground arith in
      let total = ap length same ∙ length-append d more in
      let past : leb (length (rest s)) left ≡ false = grind (arith, total, over) in
      (rw same (take_within left d more long), rw past refl)

  within-ends :
      (s : S) (max left m : ℕ) (x : Stop)
      → 0 < m
      → m ≤ left + 1
      → (within read (live s max left) (read m s)).stop ≡ some x
      → (limited_rest rest ending (live s max left)
          ≡ (within read (live s max left) (read m s)).data_read)
        × (limited_ending rest ending (live s max left) ≡ x)
  within-ends s max left m x room small e =
      elim (Bool-cases (leb (length (read m s).data_read) left)) [
        | inr over ↦
            let d = (read m s).data_read in
            let told : too_large max ≡ x = ground arith in
            let (more, same) : (more : Text) × (rest s ≡ d ++ more) =
              elim (Option-cases (read m s).stop) [
                | inl go ↦ (rest (read m s).reader, (contract.goes_on m s room go).1)
                | inr (y, stops) ↦ ([], (contract.ends m s y room stops).0 ∙ sym (append-nil d))
              ] in
            let (first, large) = beyond s max left d more same over in rw over (first, large ∙ told)
        | inl below ↦
            let stops : (read m s).stop ≡ some x = ground arith in
            let (same, end) = contract.ends m s x room stops in
            let fits : length (read m s).data_read ≤ left = ground arith in
            let in_all : leb (length (rest s)) left ≡ true = rw same below in
            rw (below, in_all) (rw same (take_all left (read m s).data_read fits), end)
      ]

  read-live :
      (n : ℕ) (s : S) (max left : ℕ)
      → 0 < n
      → read_max read n (live s max left) ≡ within read (live s max left) (read (asked left n) s)
  unfolding read_max
  read-live n s max left room = let some_room : n == 0 ≡ false = ground arith in rw some_room refl

  fits_at :
      (n : ℕ) (s : S) (max left : ℕ) (err : Option Stop)
      → length (read_max read n (held s max left err)).data_read ≤ n
  unfolding read_max
  fits_at n s max left (some x) = omega arith
  fits_at zero s max left none = omega arith
  fits_at (suc n) s max left none =
      let (_, asks, _) = asked_lem left (suc n) (omega arith) in
      rw (read-live (suc n) s max left (omega arith)) (
        within-fits (live s max left) (suc n) (read (asked left (suc n)) s)
          (omega (arith, asks, contract.fits (asked left (suc n)) s)))

  GoesOn-at :
      (n : ℕ) (s : S) (max left : ℕ) (err : Option Stop)
      → 0 < n
      → (read_max read n (held s max left err)).stop ≡ none
      → GoesOn (held s max left err) (read_max read n (held s max left err))
  GoesOn-at n s max left (some x) room e = absurd (unfold read_max in cc e)
  GoesOn-at n s max left none room e =
      let (asks, _, _) = asked_lem left n room in
      let run = read-live n s max left room in
      subst (GoesOn (live s max left)) (sym run)
        (within-GoesOn s max left n (asked left n) asks (ap (λ c. c.stop) (sym run) ∙ e))

  ends_at :
      (n : ℕ) (s : S) (max left : ℕ) (err : Option Stop) (x : Stop)
      → 0 < n
      → (read_max read n (held s max left err)).stop ≡ some x
      → (limited_rest rest ending (held s max left err)
          ≡ (read_max read n (held s max left err)).data_read)
        × (limited_ending rest ending (held s max left err) ≡ x)
  ends_at n s max left (some y) x room e = unfold read_max in (refl, cc e)
  ends_at n s max left none x room e =
      let (asks, _, small) = asked_lem left n room in
      let run = read-live n s max left room in
      let (all, end) =
        within-ends s max left (asked left n) x asks small (ap (λ c. c.stop) (sym run) ∙ e) in
      (all ∙ ap (λ c. c.data_read) (sym run), end)

  stop-err :
      (n : ℕ) (s : S) (max left : ℕ) (err : Option Stop) (x : Stop)
      → 0 < n
      → (read_max read n (held s max left err)).stop ≡ some x
      → (read_max read n (held s max left err)).reader.err ≡ some x
  unfolding read_max
  stop-err n s max left (some y) x room e = e
  stop-err n s max left none x room e =
      let (asks, _, _) = asked_lem left n room in
      let run = read-live n s max left room in
      let stops = ap (λ c. c.stop) (sym run) ∙ e in
      ap (λ c. c.reader.err) run
      ∙ elim (Bool-cases (leb (length (read (asked left n) s).data_read) left)) [
        | inl below ↦ ground (arith, stops, below)
        | inr over ↦ ground (arith, stops, over)
      ]

  ended :
      (m : ℕ) (s : S) (max left : ℕ) (err : Option Stop) (x : Stop)
      → err ≡ some x
      → ((read_max read m (held s max left err)).data_read ≡ [])
        × ((read_max read m (held s max left err)).stop ≡ some x)
        × ((read_max read m (held s max left err)).reader.err ≡ some x)
  unfolding read_max
  ended m s max left none x e = cc
  ended m s max left (some y) x e = (refl, e, e)

  -- The limiting reader keeps the contract of `io.Reader` if the reader behind it does: it delivers
  -- the first `n` bytes of what that one has, and ends as it ends if there are no more than these,
  -- and otherwise with the error that the body is too large. Behind an error it stays ended: every
  -- later read has no bytes and the same error.
  pub read_max-IsReader :
      IsReader (read_max read) (limited_rest rest ending) (limited_ending rest ending)
      × StaysEnded (read_max read)
  unfolding GoesOn
  read_max-IsReader = (
    record {
      fits = λ n l. fits_at n l.inner l.max l.remaining l.err;
      goes_on = λ n l room e. GoesOn-at n l.inner l.max l.remaining l.err room e;
      ends = λ n l x room e. ends_at n l.inner l.max l.remaining l.err x room e;
    },
    record {
      stays = λ n m l x room e.
          let r = (read_max read n l).reader in
          let (bytes, stop, _) =
            ended m r.inner r.max r.remaining r.err x
              (stop-err n l.inner l.max l.remaining l.err x room e) in
          (bytes, stop);
    },
  )
