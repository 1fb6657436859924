-- ===== src/Http/Laws.antt =====
-- Reading a header field after a change, and writing a response.
use elton.Common.{
  ◌≡◌, refl, ◌≢◌, List, [], ◌∷◌, ◌++◌, arith, Text, text_eq, text_eq_iff, if◌then◌else◌,
  append_assoc, All, All-append, sym,
}
use elton.Http.{Header, canonical, entry, put, remove, get, values, set, add, del}
use elton.Http.{Writer, write}

pub entry-put :
    (k j : Text) (vs : List Text) (h : Header)
    → entry j (put k vs h) ≡ (if text_eq k j then vs else entry j h)
unfolding entry put
entry-put k j vs [] = refl
entry-put k j vs ((i, ws) ∷ h) =
    ground (arith, text_eq_iff k j, text_eq_iff i k, text_eq_iff i j, entry-put k j vs h)

pub entry-remove :
    (k j : Text) (h : Header) → entry j (remove k h) ≡ (if text_eq k j then [] else entry j h)
unfolding entry remove
entry-remove k j [] = ground arith
entry-remove k j ((i, ws) ∷ h) =
    ground (arith, text_eq_iff k j, text_eq_iff i k, text_eq_iff i j, entry-remove k j h)

pub get-set :
    (k j v : Text) (h : Header)
    → get j (set k v h) ≡ (if text_eq (canonical k) (canonical j) then v else get j h)
unfolding get set
get-set k j v h = ground (arith, entry-put (canonical k) (canonical j) (v ∷ []) h)

pub get-del :
    (k j : Text) (h : Header)
    → get j (del k h) ≡ (if text_eq (canonical k) (canonical j) then [] else get j h)
unfolding get del
get-del k j h = ground (arith, entry-remove (canonical k) (canonical j) h)

pub values-add :
    (k j v : Text) (h : Header)
    → values j (add k v h)
      ≡ (if text_eq (canonical k) (canonical j) then values j h ++ v ∷ [] else values j h)
unfolding values add
values-add k j v h = ground (
  arith,
  entry-put (canonical k) (canonical j) (entry (canonical k) h ++ v ∷ []) h,
  text_eq_iff (canonical k) (canonical j),
)

-- A key that the header does not have.
abbrev pub Absent : Text → Header → Type 0
Absent k = All (λ e. e.0 ≢ k)

pub put-Absent :
    (k : Text) (vs : List Text) (h : Header) → Absent k h → put k vs h ≡ h ++ (k, vs) ∷ []
unfolding put
put-Absent k vs [] a = refl
put-Absent k vs ((j, ws) ∷ h) (ne, a) = ground (arith, text_eq_iff j k, put-Absent k vs h a)

pub put_last :
    (k : Text) (vs ws : List Text) (h : Header)
    → Absent k h
    → put k vs (h ++ (k, ws) ∷ []) ≡ h ++ (k, vs) ∷ []
unfolding put
put_last k vs ws [] a = ground (arith, text_eq_iff k k)
put_last k vs ws ((j, us) ∷ h) (ne, a) = ground (arith, text_eq_iff j k, put_last k vs ws h a)

pub entry-Absent : (k : Text) (h : Header) → Absent k h → entry k h ≡ []
unfolding entry
entry-Absent k [] a = refl
entry-Absent k ((j, ws) ∷ h) (ne, a) = ground (arith, text_eq_iff j k, entry-Absent k h a)

pub entry_last :
    (k : Text) (ws : List Text) (h : Header) → Absent k h → entry k (h ++ (k, ws) ∷ []) ≡ ws
unfolding entry
entry_last k ws [] a = ground (arith, text_eq_iff k k)
entry_last k ws ((j, us) ∷ h) (ne, a) = ground (arith, text_eq_iff j k, entry_last k ws h a)

pub write-write : (a b : Text) (w : Writer) → write b (write a w) ≡ write (a ++ b) w
unfolding write
write-write a b w = ground (arith, append_assoc w.body a b)

-- The keys of a Go map differ.
abbrev pub Distinct : Header → Type 0
Distinct [] = Unit
Distinct (e ∷ h) = Absent e.0 h × Distinct h

pub Absent-grow :
    (name : Text) (vs : List Text) (rest done : Header)
    → Absent name rest
    → All (λ e. Absent e.0 done) rest
    → All (λ e. Absent e.0 (done ++ (name, vs) ∷ [])) rest
Absent-grow name vs [] done _ _ = tt
Absent-grow name vs (e ∷ es) done (ne, nes) (f, fs) =
    (All-append _ done _ f ((λ q. ne (sym q)), tt), Absent-grow name vs es done nes fs)

pub All-Absent : (h : Header) → All (λ e. Absent e.0 []) h
All-Absent [] = tt
All-Absent (e ∷ h) = (tt, All-Absent h)
