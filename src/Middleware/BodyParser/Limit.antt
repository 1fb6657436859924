-- ===== src/Middleware/BodyParser/Limit.antt =====
-- The limit of the body parser: what `ReadAll` returns for a body of any size.
use elton.Common.{
  ℕ, zero, suc, ◌<◌, ◌≤◌, ◌≡◌, refl, ap, ◌∙◌, Bool, ◌⊎◌, inl, inr, Option, some, Text, take,
  take_all, length-take, ltb, leb, if◌then◌else◌, length, Bool-cases, arith, pos,
}
use elton.Context.{Err}
use elton.Reading.{Stop, Read, IsReader, error_of}
use elton.Reading.Whole.{read_all_whole}
use elton.Middleware.BodyParser.{
  max_bytes_reader, too_large, too_large_error, as_hes_error, read_max, copied, init_cap,
  read_result, read_body, read_all,
}
use elton.Middleware.BodyParser.Limited.{limited_rest, limited_ending, read_max-IsReader}

-- A buffer of its own is not nil, a copied one is if it is empty.
abbrev pub kept : ℕ → Text → Option Text
kept capacity = if ltb 0 capacity then some else copied

length-limited : (left : ℕ) (b : Text) → length (take left b) ≤ left
length-limited left b = elim (Bool-cases (leb (length b) left)) [
  | inl e ↦ let h : length b ≤ left = ground arith in rw (take_all left b h) h
  | inr e ↦ let h : left ≤ length b = ground arith in omega (arith, length-take left b h)
]

module _ (is_hes : Err → Bool) (wrap : Err → Err) (grow space : ℕ → ℕ)
    (grows : (c : ℕ) → c < grow c) (offers : (len : ℕ) → 0 < space len) where
  pub read_body_lem :
      {S : Type 0} (read : Read S) (rest : S → Text) (ending : S → Stop)
      → IsReader read rest ending
      → (fuel capacity : ℕ) (s : S) → length (rest s) < fuel
      → read_body is_hes wrap read grow space fuel capacity s
        ≡ some (read_result is_hes wrap (kept capacity) (rest s, error_of (ending s)))
  unfolding read_body
  read_body_lem read rest ending contract fuel capacity s enough =
      let (by_cap, by_buffer) =
        read_all_whole read rest ending contract grow space grows offers fuel capacity s enough in
      elim (Bool-cases (ltb 0 capacity)) [
        | inl e ↦ rw (e, by_cap) refl
        | inr e ↦ rw (e, by_buffer) refl
      ]

  -- What a limit makes of the body `b` of a request whose stream ends with `stop`.
  abbrev pub limited_result : ℕ → (Text → Option Text) → Text → Stop → Option Text ⊎ Err
  limited_result limit copy b stop =
      if leb (length b) limit
      then read_result is_hes wrap copy (b, error_of stop)
      else inr (as_hes_error is_hes wrap (too_large_error limit))

  cut_result :
      (limit : ℕ) (copy : Text → Option Text) (b : Text) (stop : Stop)
      → read_result is_hes wrap copy
          (take limit b, error_of (if leb (length b) limit then stop else too_large limit))
        ≡ limited_result limit copy b stop
  cut_result limit copy b stop = elim (Bool-cases (leb (length b) limit)) [
    | inl e ↦ let h : length b ≤ limit = ground arith in rw (e, take_all limit b h) refl
    | inr e ↦ rw e refl
  ]

  -- Reading a request body under a limit, which takes at most one round more than the limit has
  -- bytes, however long the body is: a body of at most `limit` bytes is returned whole, or the error
  -- with which the connection ends is; a longer body is never returned, but the error that it is too
  -- large. The announced content length does not matter, except that an empty body without one is
  -- nil. The connection keeps the contract of `io.Reader`, and buffers grow.
  pub read_all_limit :
      {S : Type 0} (read : Read S) (rest : S → Text) (ending : S → Stop)
      → IsReader read rest ending
      → (limit n fuel : ℕ) (s : S) → 0 < limit
      → limit < fuel
      → read_all is_hes wrap read grow space (pos limit) n fuel s
        ≡ some (limited_result limit (kept (init_cap (pos limit) n)) (rest s) (ending s))
  unfolding read_all max_bytes_reader
  read_all_limit read rest ending contract zero n fuel s positive enough = absurd (omega arith)
  read_all_limit read rest ending contract (suc m) n fuel s positive enough =
      let l = max_bytes_reader s (suc m) in
      let copy = kept (init_cap (pos (suc m)) n) in
      let run =
        read_body_lem (read_max read) (limited_rest rest ending) (limited_ending rest ending)
          (read_max-IsReader read rest ending contract).0 fuel (init_cap (pos (suc m)) n) l
          (omega (arith, length-limited (suc m) (rest s))) in
      run ∙ ap some (cut_result (suc m) copy (rest s) (ending s))
