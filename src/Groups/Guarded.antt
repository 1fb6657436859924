-- ===== src/Groups/Guarded.antt =====
-- What a group passes on to the routes below it.
use elton.Common.{
  ◌+◌, ◌<◌, ◌≤◌, ◌≡◌, refl, sym, ap, subst, ◌∙◌, false, inl, inr, some, List, [], ◌∷◌, ◌++◌,
  append_assoc, append-nil, All, All-append, Text, ◌==◌, if◌then◌else◌, Bool-cases, Option-cases,
  ==_refl, arith,
}
use elton.Chain.{Handler}
use elton.Groups.{
  Ptr, Router, Group, Store, group, router, write, alloc, new_group, merge, new_sub_group,
  group_handle, Step, creates, nests, handles, Steps, nothing, then_one,
}

-- A path and handlers that extend those of a group.
abbrev pub Extends : Text → List Handler → Text → List Handler → Type 0
Extends path hs path' hs' =
    ((x : Text) × (path' ≡ path ++ x)) × ((ys : List Handler) × (hs' ≡ hs ++ ys))

pub Extends-refl : (path : Text) (hs : List Handler) → Extends path hs path hs
Extends-refl path hs = (([], sym (append-nil path)), ([], sym (append-nil hs)))

pub Extends-trans :
    (path path' path'' : Text) (hs hs' hs'' : List Handler)
    → Extends path hs path' hs'
    → Extends path' hs' path'' hs''
    → Extends path hs path'' hs''
Extends-trans path path' path'' hs hs' hs'' ((x, p), (ys, h)) ((x', p'), (ys', h')) = (
  (x ++ x', p' ∙ ap (λ t. t ++ x') p ∙ append_assoc path x x'),
  (ys ++ ys', h' ∙ ap (λ t. t ++ ys') h ∙ append_assoc hs ys ys'),
)

abbrev pub RouterFits : Group → Router → Type 0
RouterFits g r = Extends g.path g.handler_list r.path r.handle_list

-- A sub group is younger than its group and extends it.
abbrev pub ChildFits : Store → Ptr → Group → Ptr → Type 0
ChildFits s p g c =
    (p < c)
    × (child : Group) × (s.at c ≡ some child)
    × Extends g.path g.handler_list child.path child.handler_list

abbrev pub GroupFits : Store → Ptr → Group → Type 0
GroupFits s p g = (p < s.next) × All (RouterFits g) g.routers × All (ChildFits s p g) g.children

unfoldable pub IsSound : Store → Type 0
IsSound s = (p : Ptr) (g : Group) → s.at p ≡ some g → GroupFits s p g

pub All-map :
    {A : Type 0} (P Q : A → Type 0) (xs : List A) → ((x : A) → P x → Q x) → All P xs → All Q xs
All-map P Q [] f h = tt
All-map P Q (x ∷ xs) f (h, hs) = (f x h, All-map P Q xs f hs)

-- A store in which every group is still there with its path and handlers.
abbrev Keeps : Store → Store → Type 0
Keeps s t =
    (c : Ptr) (child : Group)
    → s.at c ≡ some child
    → (later : Group) × (t.at c ≡ some later)
      × (later.path ≡ child.path)
      × (later.handler_list ≡ child.handler_list)

ChildFits-keeps :
    (s t : Store) (p : Ptr) (g : Group) (c : Ptr)
    → Keeps s t
    → ChildFits s p g c
    → ChildFits t p g c
ChildFits-keeps s t p g c keeps (younger, child, found, extends) =
    let (later, there, path, hs) = keeps c child found in
    (
      younger,
      later,
      there,
      subst (λ x. Extends g.path g.handler_list x later.handler_list) (sym path)
          (subst (λ x. Extends g.path g.handler_list child.path x) (sym hs) extends),
    )

GroupFits-keeps :
    (s t : Store) (p : Ptr) (g : Group)
    → Keeps s t
    → s.next ≤ t.next
    → GroupFits s p g
    → GroupFits t p g
GroupFits-keeps s t p g keeps more (old, routers, children) = (
  omega arith,
  routers,
  All-map (ChildFits s p g) (ChildFits t p g) g.children (λ c h. ChildFits-keeps s t p g c keeps h)
      children,
)

write-Keeps :
    (s : Store) (p : Ptr) (g g' : Group)
    → s.at p ≡ some g
    → g'.path ≡ g.path
    → g'.handler_list ≡ g.handler_list
    → Keeps s (write p g' s)
unfolding write
write-Keeps s p g g' there path hs c child found = elim (Bool-cases (c == p)) [
  | inl e ↦
      let same : c ≡ p = ground arith in
      let is_g : some g ≡ some child = sym there ∙ sym (ap s.at same) ∙ found in
      let is_child : g ≡ child = cc is_g in
      (
        g',
        rw e refl,
        path ∙ ap (λ (x : Group). x.path) is_child,
        hs ∙ ap (λ (x : Group). x.handler_list) is_child,
      )
  | inr e ↦ (child, rw e found, refl, refl)
]

alloc-Keeps : (g : Group) (s : Store) → IsSound s → Keeps s (alloc g s)
unfolding alloc write IsSound
alloc-Keeps g s sound c child found =
    let (old, _, _) = sound c child found in
    let other : c == s.next ≡ false = ground arith in (child, rw other found, refl, refl)

at-write :
    (p q : Ptr) (g : Group) (s : Store) → (write p g s).at q ≡ (if q == p then some g else s.at q)
unfolding write
at-write p q g s = refl

next-write : (p : Ptr) (g : Group) (s : Store) → (write p g s).next ≡ s.next
unfolding write
next-write p g s = refl

-- Rewriting one group keeps a store sound if the new group fits.
write-IsSound :
    (s : Store) (p : Ptr) (g g' : Group)
    → IsSound s
    → s.at p ≡ some g
    → g'.path ≡ g.path
    → g'.handler_list ≡ g.handler_list
    → GroupFits s p g'
    → IsSound (write p g' s)
unfolding IsSound
write-IsSound s p g g' sound there path hs fits q h found =
    let keeps = write-Keeps s p g g' there path hs in
    let next = next-write p g' s in
    elim (Bool-cases (q == p)) [
      | inl e ↦
          let same : p ≡ q = ground arith in
          let is_new : g' ≡ h = ground (arith, at-write p q g' s) in
          subst (λ x. GroupFits (write p g' s) x h) same
            (subst (GroupFits (write p g' s) p) is_new
              (GroupFits-keeps s (write p g' s) p g' keeps (omega (arith, next)) fits))
      | inr e ↦
          let before : s.at q ≡ some h = ground (arith, at-write p q g' s) in
          GroupFits-keeps s (write p g' s) q h keeps (omega (arith, next)) (sound q h before)
    ]

at-alloc :
    (q : Ptr) (g : Group) (s : Store) → (alloc g s).at q ≡ (if q == s.next then some g else s.at q)
unfolding alloc write
at-alloc q g s = refl

next-alloc : (g : Group) (s : Store) → (alloc g s).next ≡ s.next + 1
unfolding alloc write
next-alloc g s = refl

alloc-IsSound :
    (s : Store) (path : Text) (hs : List Handler) → IsSound s → IsSound (alloc (group path hs) s)
unfolding IsSound
alloc-IsSound s path hs sound q h found =
    let g = group path hs in
    let next = next-alloc g s in
    elim (Bool-cases (q == s.next)) [
      | inl e ↦
          let same : s.next ≡ q = ground arith in
          let is_new : g ≡ h = ground (arith, at-alloc q g s) in
          subst (GroupFits (alloc g s) q) is_new (omega (arith, next, same), tt, tt)
      | inr e ↦
          let before : s.at q ≡ some h = ground (arith, at-alloc q g s) in
          GroupFits-keeps s (alloc g s) q h (alloc-Keeps g s sound) (omega (arith, next))
            (sound q h before)
    ]

group_handle-IsSound :
    (p : Ptr) (method path : Text) (hs : List Handler) (s t : Store)
    → IsSound s
    → group_handle p method path hs s ≡ some t
    → IsSound t
unfolding group_handle merge IsSound
group_handle-IsSound p method path hs s t sound run = elim (Option-cases (s.at p)) [
  | inl missing ↦ ground arith
  | inr (g, there) ↦
      let r = router method (g.path ++ path) (g.handler_list ++ hs) in
      let g' = record g { routers = g.routers ++ r ∷ [] } in
      let made : write p g' s ≡ t = ground arith in
      let (old, routers, children) = sound p g there in
      subst IsSound made (
        write-IsSound s p g g' sound there refl refl (
          old,
          All-append (RouterFits g) g.routers (r ∷ []) routers (((path, refl), (hs, refl)), tt),
          children,
        ))
]

new_sub_group-IsSound :
    (p : Ptr) (path : Text) (hs : List Handler) (s t : Store)
    → IsSound s
    → new_sub_group p path hs s ≡ some t
    → IsSound t
unfolding new_sub_group merge IsSound
new_sub_group-IsSound p path hs s t sound run = elim (Option-cases (s.at p)) [
  | inl missing ↦ ground arith
  | inr (g, there) ↦
      let child = group (g.path ++ path) (g.handler_list ++ hs) in
      let u = alloc child s in
      let g' = record g { children = g.children ++ s.next ∷ [] } in
      let made : write p g' u ≡ t = ground arith in
      let before = sound p g there in
      let other : p == s.next ≡ false = let (old, _, _) = before in ground arith in
      let there' : u.at p ≡ some g = at-alloc p child s ∙ (rw other there) in
      let new : u.at s.next ≡ some child = at-alloc s.next child s ∙ (rw (==_refl s.next) refl) in
      let (old, routers, children) =
        GroupFits-keeps s u p g (alloc-Keeps child s sound) (omega (arith, next-alloc child s))
          before in
      let (young, _, _) = before in
      subst IsSound made (
        write-IsSound u p g g' (alloc-IsSound s (g.path ++ path) (g.handler_list ++ hs) sound)
          there' refl refl
          (
            old,
            routers,
            All-append (ChildFits u p g) g.children (s.next ∷ []) children
                ((young, child, new, ((path, refl), (hs, refl))), tt),
          ))
]

Step-IsSound : {s t : Store} → Step s t → IsSound s → IsSound t
Step-IsSound (creates path hs s) sound = unfold new_group in alloc-IsSound s path hs sound
Step-IsSound (nests p path hs s t run) sound = new_sub_group-IsSound p path hs s t sound run
Step-IsSound (handles p method path hs s t run) sound =
    group_handle-IsSound p method path hs s t sound run

-- Whatever a program does with groups, in any order, each router of a group and each of its sub
-- groups extends the path and the handlers of the group, and a sub group is younger than its group.
pub Steps-IsSound : {s : Store} → Steps s → IsSound s
Steps-IsSound nothing = unfold IsSound in λ p g e. cc e
Steps-IsSound (then_one s t before step) = Step-IsSound step (Steps-IsSound before)
