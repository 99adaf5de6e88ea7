-- ===== src/Identity/Database/Dead.antt =====
-- What `revoke_all_active_for_user` leaves of the refresh tokens of a user.
use novaapi.Common.{ℕ, ◌≡◌, refl, Bool, true, some, not, ◌&&◌, List, [], ◌∷◌, map, all, ◌==◌, arith}
use novaapi.Identity.Tokens.{RefreshToken, is_none}
use novaapi.Identity.Database.{revoke_if_active, find_where}

-- The token is not one that the user could still refresh.
abbrev pub is_dead : ℕ → RefreshToken → Bool
is_dead user_id t = not (t.user_id == user_id && is_none t.revoked_at)

pub revoke_all-all_dead :
    (user_id now : ℕ) (ts : List RefreshToken)
    → all (is_dead user_id) (map (revoke_if_active user_id now) ts) ≡ true
unfolding revoke_if_active
revoke_all-all_dead user_id now [] = refl
revoke_all-all_dead user_id now (t ∷ ts) = ground (arith, revoke_all-all_dead user_id now ts)

-- What holds of all rows holds of the one that a query finds.
pub find_where-all :
    {A : Type 0} (p q : A → Bool) (xs : List A) (x : A)
    → all q xs ≡ true
    → find_where p xs ≡ some x
    → q x ≡ true
unfolding find_where
find_where-all p q [] x a f = ground arith
find_where-all p q (y ∷ xs) x a f = ground (arith, find_where-all p q xs x)
