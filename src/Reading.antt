-- ===== src/Reading.antt =====
-- util.go: `ReadAllInitCap` and `ReadAllToBuffer`, and what an `io.Reader` promises.
pub mod Whole
use elton.Common.{
  ℕ, zero, suc, ◌+◌, ◌-◌, ◌<◌, ◌≤◌, ◌≡◌, ◌≢◌, Bool, true, false, Option, none, some, List, [], ◌∷◌,
  ◌++◌, Text, ltb, ◌==◌, if◌then◌else◌, length,
}
use elton.Context.{Err}

-- The error of a `Read`: `io.EOF`, or another one.
pub data Stop : Type 0 where
  eof : Stop
  failure : Err → Stop

-- What a `Read` into a slice of `n` bytes gives: the bytes that it stored, the error if there is
-- one, and the reader after it.
pub record Chunk (S : Type 0) : Type 0 where
  pub data_read : Text
  pub stop : Option Stop
  pub reader : S

abbrev pub Read : Type 0 → Type 0
Read S = ℕ → S → Chunk S

-- The contract of `io.Reader`, for a reader that has the bytes `rest` in front of it and then ends
-- with `ending`: a `Read` stores at most as many bytes as there is room for; without an error it
-- makes progress, and with an error it has delivered everything.
pub record IsReader {S : Type 0} (read : Read S) (rest : S → Text) (ending : S → Stop)
    : Type 0 where
  pub fits : (n : ℕ) (s : S) → length (read n s).data_read ≤ n
  pub goes_on :
      (n : ℕ) (s : S)
      → 0 < n
      → (read n s).stop ≡ none
      → (0 < length (read n s).data_read)
        × (rest s ≡ (read n s).data_read ++ rest (read n s).reader)
        × (ending (read n s).reader ≡ ending s)
  pub ends :
      (n : ℕ) (s : S) (e : Stop)
      → 0 < n
      → (read n s).stop ≡ some e
      → (rest s ≡ (read n s).data_read) × (ending s ≡ e)

abbrev pub error_of : Stop → Option Err
error_of eof = none
error_of (failure e) = some e

-- `append(b, 0)` when the slice is full: `grow` gives the capacity that `append` picks.
abbrev pub make_room : (ℕ → ℕ) → ℕ → ℕ → ℕ
make_room grow len capacity = if len == capacity then grow capacity else capacity

module _ {S : Type 0} (read : Read S) where
  -- `b` is what was read. `none` means that the fuel ran out.
  unfoldable pub read_loop : (ℕ → ℕ) → ℕ → ℕ → Text → S → Option (Text × Option Err)
  read_loop grow zero capacity b s = none
  read_loop grow (suc fuel) capacity b s =
      let capacity' = make_room grow (length b) capacity in
      let c = read (capacity' - length b) s in
      let rest = read_loop grow fuel capacity' (b ++ c.data_read) c.reader in
      elim c.stop [ none ↦ rest | some e ↦ some (b ++ c.data_read, error_of e) ]

  -- `ReadAllInitCap`.
  unfoldable pub read_all_init_cap : (ℕ → ℕ) → ℕ → ℕ → S → Option (Text × Option Err)
  unfolding read_loop
  read_all_init_cap grow fuel init_cap s =
      read_loop grow fuel (if init_cap == 0 then 512 else init_cap) [] s

  -- `ReadAllToBuffer` into an empty buffer, by `bytes.Buffer.ReadFrom`: each round has the room
  -- that the buffer offers when it holds so many bytes.
  unfoldable pub read_all_to_buffer : (ℕ → ℕ) → ℕ → Text → S → Option (Text × Option Err)
  read_all_to_buffer room zero b s = none
  read_all_to_buffer room (suc fuel) b s =
      let c = read (room (length b)) s in
      let rest = read_all_to_buffer room fuel (b ++ c.data_read) c.reader in
      elim c.stop [ none ↦ rest | some e ↦ some (b ++ c.data_read, error_of e) ]
