-- ===== src/Core/ByteOrder.antt =====
-- `compareBytes` of packages/core/src/node.ts, and the same function of validation.ts.
pub mod Laws
use casfa.Base.{ℕ, List, [], ◌∷◌, Bytes, Bool, true, false}
use Prim.Native.Nat.{compare, Ordering, lt, eq, gt}

-- The sign of the number that `compareBytes` returns.
unfoldable pub compare_bytes : Bytes → Bytes → Ordering
compare_bytes [] [] = eq
compare_bytes [] (b ∷ bs) = lt
compare_bytes (a ∷ as') [] = gt
compare_bytes (a ∷ as') (b ∷ bs) =
    let rest = compare_bytes as' bs in elim (compare a b) [ lt ↦ lt | gt ↦ gt | eq ↦ rest ]

-- `compareBytes(a, b) <= 0` and `compareBytes(a, b) < 0`.
unfoldable pub le_bytes : Bytes → Bytes → Bool
unfolding compare_bytes
le_bytes a b = elim (compare_bytes a b) [ gt ↦ false | _ ↦ true ]

unfoldable pub lt_bytes : Bytes → Bytes → Bool
unfolding compare_bytes
lt_bytes a b = elim (compare_bytes a b) [ lt ↦ true | _ ↦ false ]
