-- ===== src/Reading/Whole.antt =====
-- The two loops of util.go read a reader to its end.
use elton.Common.{
  ℕ, zero, suc, ◌-◌, ◌<◌, ◌≤◌, ◌≡◌, refl, ap, ◌∙◌, Option, none, some, [], ◌++◌, append_assoc, Text,
  ◌==◌, if◌then◌else◌, length, length-append, arith, Option-cases, inl, inr,
}
use elton.Context.{Err}
use elton.Reading.{
  Stop, Read, IsReader, error_of, read_loop, read_all_init_cap, read_all_to_buffer, make_room,
}

make_room_lem :
    (grow : ℕ → ℕ)
    → ((c : ℕ) → c < grow c)
    → (len capacity : ℕ) → len ≤ capacity
    → len < make_room grow len capacity
make_room_lem grow grows len capacity h = ground (arith, grows capacity)

module _ {S : Type 0} (read : Read S) (rest : S → Text) (ending : S → Stop)
    (contract : IsReader read rest ending) where
  -- One round that goes on: what is left shrinks, and what was read and is left together stays.
  shorter :
      (n : ℕ) (s : S)
      → 0 < n
      → (read n s).stop ≡ none
      → length (rest (read n s).reader) < length (rest s)
  shorter n s room e =
      let (some_bytes, same, _) = contract.goes_on n s room e in
      let total = ap length same ∙ length-append (read n s).data_read (rest (read n s).reader) in
      omega (arith, total, some_bytes)

  abbrev pub whole : Text → S → Text × Option Err
  whole b s = (b ++ rest s, error_of (ending s))

  round :
      (n : ℕ) (b : Text) (s : S) (r : Option (Text × Option Err))
      → 0 < n
      → ((read n s).stop ≡ none → r ≡ some (whole (b ++ (read n s).data_read) (read n s).reader))
      → (elim (read n s).stop [ none ↦ r | some e ↦ some (b ++ (read n s).data_read, error_of e) ])
        ≡ some (whole b s)
  round n b s r room more = elim (Option-cases (read n s).stop) [
    | inl e ↦
        let (_, all, same) = contract.goes_on n s room e in
        rw (e, more e, all, same, append_assoc) refl
    | inr (x, e) ↦ let (all, same) = contract.ends n s x room e in rw (e, all, same) refl
  ]

  loop_whole :
      (grow : ℕ → ℕ)
      → ((c : ℕ) → c < grow c)
      → (fuel capacity : ℕ) (b : Text) (s : S) → length (rest s) < fuel
      → length b ≤ capacity
      → read_loop read grow fuel capacity b s ≡ some (whole b s)
  unfolding read_loop
  loop_whole grow grows zero capacity b s enough fits = absurd (omega arith)
  loop_whole grow grows (suc fuel) capacity b s enough fits =
      let capacity' = make_room grow (length b) capacity in
      let n = capacity' - length b in
      let grown = make_room_lem grow grows (length b) capacity fits in
      let room : 0 < n = omega (arith, grown) in
      let d = (read n s).data_read in
      let fits' : length (b ++ d) ≤ capacity' =
        omega (arith, length-append b d, contract.fits n s, grown) in
      round n b s _ room (λ e.
        loop_whole grow grows fuel capacity' (b ++ d) (read n s).reader
          (omega (arith, shorter n s room e)) fits')

  buffer_whole :
      (space : ℕ → ℕ)
      → ((len : ℕ) → 0 < space len)
      → (fuel : ℕ) (b : Text) (s : S) → length (rest s) < fuel
      → read_all_to_buffer read space fuel b s ≡ some (whole b s)
  unfolding read_all_to_buffer
  buffer_whole space offers zero b s enough = absurd (omega arith)
  buffer_whole space offers (suc fuel) b s enough =
      let n = space (length b) in
      round n b s _ (offers (length b)) (λ e.
        buffer_whole space offers fuel (b ++ (read n s).data_read) (read n s).reader
          (omega (arith, shorter n s (offers (length b)) e)))

  -- Reading a reader to its end, with more fuel than it has bytes: both `ReadAllInitCap`, whatever
  -- the capacity that it begins with and however `append` makes a full slice grow, and
  -- `ReadAllToBuffer` into an empty buffer that always offers some space, return all bytes that
  -- the reader had left, in order, with no error if it ends with `io.EOF`, and with its error
  -- otherwise. The contract of `io.Reader` is what is asked of the reader.
  pub read_all_whole :
      (grow space : ℕ → ℕ)
      → ((c : ℕ) → c < grow c)
      → ((len : ℕ) → 0 < space len)
      → (fuel init_cap : ℕ) (s : S) → length (rest s) < fuel
      → (read_all_init_cap read grow fuel init_cap s ≡ some (rest s, error_of (ending s)))
        × (read_all_to_buffer read space fuel [] s ≡ some (rest s, error_of (ending s)))
  unfolding read_all_init_cap
  read_all_whole grow space grows offers fuel init_cap s enough = (
    loop_whole grow grows fuel (if init_cap == 0 then 512 else init_cap) [] s enough (omega arith),
    buffer_whole space offers fuel [] s enough,
  )
