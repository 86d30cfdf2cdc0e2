-- ===== src/Realtime/Sizes.antt =====
-- The number of connections behind a change of their table.
use game_gardens_of_karaxas.Base.{
  ℕ, suc, ◌≤◌, ◌<◌, ◌≡◌, some, [], ◌∷◌, arith, nat_equality, string_equality, pair_equality,
  option_equality, length,
}
use game_gardens_of_karaxas.Base.Dict.{Dict, get, put, remove}
use game_gardens_of_karaxas.Realtime.{ConnectionMeta}

pub length-remove-le :
    (s : ℕ) (metas : Dict ℕ ConnectionMeta) → length (remove s metas) ≤ length metas
unfolding remove
length-remove-le s [] = omega arith
length-remove-le s ((t, m) ∷ metas) = ground (arith, length-remove-le s metas)

pub length-remove-lt :
    (s : ℕ) (metas : Dict ℕ ConnectionMeta) (m : ConnectionMeta)
    → get s metas ≡ some m
    → length (remove s metas) < length metas
unfolding remove get
length-remove-lt s [] m h = absurd (ground (arith, h))
length-remove-lt s ((t, n) ∷ metas) m h =
    ground (arith, h, length-remove-le s metas, length-remove-lt s metas m)

pub length-put-le :
    (s : ℕ) (m : ConnectionMeta) (metas : Dict ℕ ConnectionMeta)
    → length (put s m metas) ≤ suc (length metas)
unfolding put
length-put-le s m [] = omega arith
length-put-le s m ((t, n) ∷ metas) = ground (arith, length-put-le s m metas)

pub length-put :
    (s : ℕ) (m n : ConnectionMeta) (metas : Dict ℕ ConnectionMeta)
    → get s metas ≡ some m
    → length (put s n metas) ≡ length metas
unfolding put get
length-put s m n [] h = absurd (ground (arith, h))
length-put s m n ((t, o) ∷ metas) h = ground (arith, h, length-put s m n metas)
