-- ===== src/Fsm/Sizes/Children.antt =====
-- The listing of a directory whose paths stand once each.
use raft_example.Prelude.{
  ◌≡◌, refl, sym, ap, ◌∙◌, Bool, true, false, Option, none, some, List, [], ◌∷◌, Bytes, same_iff,
  same_refl, if◌then◌else◌, All, arith,
}
use raft_example.Prelude.Map.{Map, lookup}
use raft_example.Fsm.Disk.{Node, below, has_slash, child_of, children}
use raft_example.Fsm.Disk.Paths.{Unique, below_lem, lookup-children}

pub All-weaken {ℓ κ} :
    {A : Type ℓ} (P Q : A → Type κ) (xs : List A) → ((x : A) → P x → Q x) → All P xs → All Q xs
All-weaken P Q [] f h = tt
All-weaken P Q (x ∷ xs) f (h, hs) = (f x h, All-weaken P Q xs f hs)

-- The names of a listing have no slash.
abbrev pub IsPlain : Bytes × Node → Type 0
IsPlain c = has_slash c.0 ≡ false

child_of-IsPlain :
    (o : Option Bytes) (n : Node) (rest : List (Bytes × Node))
    → All IsPlain rest
    → All IsPlain (child_of o n rest)
child_of-IsPlain none n rest h = h
child_of-IsPlain (some name) n rest h = by_slash (has_slash name) refl
  where
    by_slash : (b : Bool) → has_slash name ≡ b → All IsPlain (if b then rest else (name, n) ∷ rest)
    by_slash true e = h
    by_slash false e = (e, h)

pub children-IsPlain : (dir : Bytes) (m : Map Node) → All IsPlain (children dir m)
unfolding children
children-IsPlain dir [] = tt
children-IsPlain dir ((q, n) ∷ m) =
    child_of-IsPlain (below dir q) n (children dir m) (children-IsPlain dir m)

child_of-Unique :
    (o : Option Bytes) (n : Node) (rest : List (Bytes × Node))
    → ((name : Bytes) → o ≡ some name → has_slash name ≡ false → lookup name rest ≡ none)
    → Unique rest
    → Unique (child_of o n rest)
unfolding Unique
child_of-Unique none n rest fresh h = h
child_of-Unique (some name) n rest fresh h = by_slash (has_slash name) refl
  where
    by_slash : (b : Bool) → has_slash name ≡ b → Unique (if b then rest else (name, n) ∷ rest)
    by_slash true e = h
    by_slash false e = (fresh name refl e, h)

pub children-Unique : (dir : Bytes) (m : Map Node) → Unique m → Unique (children dir m)
unfolding children Unique
children-Unique dir [] h = tt
children-Unique dir ((q, n) ∷ m) (fresh, h) =
    child_of-Unique (below dir q) n (children dir m)
      (λ name e plain.
        lookup-children dir name m plain
        ∙ ap (λ p. lookup p m) (sym (below_lem dir q name e))
        ∙ fresh)
      (children-Unique dir m h)

-- Where paths stand once, each entry is what a look-up of its path finds.
abbrev pub IsFoundIn : Map Node → Bytes × Node → Type 0
IsFoundIn m e = lookup e.0 m ≡ some e.1

found_behind :
    (k : Bytes) (n : Node) (m : Map Node) (e : Bytes × Node)
    → lookup k m ≡ none
    → IsFoundIn m e
    → IsFoundIn ((k, n) ∷ m) e
unfolding lookup
found_behind k n m (q, n') fresh h = ground (arith, same_iff k q)

pub Unique-IsFoundIn : (m : Map Node) → Unique m → All (IsFoundIn m) m
unfolding Unique lookup
Unique-IsFoundIn [] h = tt
Unique-IsFoundIn ((k, n) ∷ m) (fresh, h) = (
  rw (same_refl k) refl,
  All-weaken (IsFoundIn m) (IsFoundIn ((k, n) ∷ m)) m (λ e f. found_behind k n m e fresh f)
      (Unique-IsFoundIn m h),
)
