-- ===== src/Hosts/Order.antt =====
-- The order that the hosts of pkg/permissions/internal/selecthost/host.go are sorted by.
use permissions_api.Base.{
  ℕ, ◌<◌, ◌≡◌, ◌⊎◌, inl, inr, ◌↔◌, Bool, true, false, Option, none, some, arith,
}
use permissions_api.Hosts.{HostError, Host, before, average}

-- 1 for a host with an error.
abbrev rank : Option HostError → ℕ
rank none = 0
rank (some x) = 1

-- One of the numbers is smaller, and those before it are equal.
abbrev IsLexLess : (a a' b b' c c' d d' : ℕ) → Type 0
IsLexLess a a' b b' c c' d d' =
    (a < a') ⊎ ((a ≡ a') × ((b < b') ⊎ ((b ≡ b') × ((c < c') ⊎ ((c ≡ c') × (d < d'))))))

abbrev pub IsBefore : Host → Host → Type 0
IsBefore h g =
    IsLexLess (rank h.error) (rank g.error) h.srv.priority g.srv.priority h.srv.weight g.srv.weight
      (average h.last_check) (average g.last_check)

pub before_iff : (h g : Host) → (before h g ≡ true) ↔ IsBefore h g
unfolding before
before_iff h g = ground arith

-- The order by four numbers is a strict one.
lex_irreflexive : (a b c d : ℕ) → ¬ IsLexLess a a b b c c d d
lex_irreflexive a b c d h = ground arith

lex_transitive :
    (a a' a'' b b' b'' c c' c'' d d' d'' : ℕ)
    → IsLexLess a a' b b' c c' d d'
    → IsLexLess a' a'' b' b'' c' c'' d' d''
    → IsLexLess a a'' b b'' c c'' d d''
lex_transitive a a' a'' b b' b'' c c' c'' d d' d'' h k = ground arith

lex_between :
    (a a' a'' b b' b'' c c' c'' d d' d'' : ℕ)
    → IsLexLess a a'' b b'' c c'' d d''
    → IsLexLess a a' b b' c c' d d' ⊎ IsLexLess a' a'' b' b'' c' c'' d' d''
lex_between a a' a'' b b' b'' c c' c'' d d' d'' h = ground arith

Bool-absurd : {b : Bool} → ¬ (b ≡ true) → b ≡ false
Bool-absurd h = ground arith

either : (h g k : Host) → IsBefore h g ⊎ IsBefore g k → (before h g ≡ true) ⊎ (before g k ≡ true)
either h g k (inl p) = inl ((before_iff h g).1 p)
either h g k (inr p) = inr ((before_iff g k).1 p)

-- If a host is before another, then the other is not before it, and any third host is after the first
-- or before the second, as a sort needs it.
pub before_lem :
    (h g k : Host)
    → before h k ≡ true
    → (before k h ≡ false) × ((before h g ≡ true) ⊎ (before g k ≡ true))
before_lem h g k p = (
  Bool-absurd (λ q.
      lex_irreflexive _ _ _ _
        (lex_transitive _ _ _ _ _ _ _ _ _ _ _ _ ((before_iff h k).0 p) ((before_iff k h).0 q))),
  either h g k (lex_between _ _ _ _ _ _ _ _ _ _ _ _ ((before_iff h k).0 p)),
)
