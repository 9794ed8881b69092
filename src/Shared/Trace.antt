-- ===== src/Shared/Trace.antt =====
-- Sequences of calls of two implementations with one interface.
use mathlib.Core.Path.{◌≡◌, refl}
use mathlib.Core.List.{List, [], ◌∷◌}

-- the answers of the calls, in order, and the state after them
unfoldable pub trace : {C S O : Type 0} → (C → S → O × S) → List C → S → List O × S
trace f [] s = ([], s)
trace f (c ∷ cs) s = let (o, s1) = f c s in let (os, s2) = trace f cs s1 in (o ∷ os, s2)

-- Two implementations agree on calls that meet a condition if each call of them does, and leaves the
-- condition on the rest.
pub trace-trace :
    {C S O : Type 0} (f g : C → S → O × S) (P : List C → S → Type 0)
    → ((c : C) (cs : List C) (s : S) → P (c ∷ cs) s → (f c s ≡ g c s) × P cs (g c s).1)
    → (cs : List C) (s : S) → P cs s
    → trace f cs s ≡ trace g cs s
unfolding trace
trace-trace f g P h [] s p = refl
trace-trace f g P h (c ∷ cs) s p =
    let (e, q) = h c cs s p in let r = trace-trace f g P h cs (g c s).1 q in rw (e, r) refl
