-- ===== src/RateLimiting/Tests.antt =====
-- The limiter at a concrete run: one key over two windows, with calls of another between them.
use Prim.Native.Nat.{min}
use novaapi.Common.{ℕ, ◌≡◌, ◌≤◌, refl, some, List, [], ◌∷◌, arith}
use novaapi.RateLimiting.{check, enforce, Windows}
use novaapi.RateLimiting.Retry.{check-retry_after_bounds}
use novaapi.RateLimiting.Window.{Call, admitted, calls_of, InTurn, admitted_exact}

-- Three calls a minute at most.
abbrev own : ℕ → Call
own now = record { key = "a"; limit = 3; window_seconds = 60; now = now }

-- Another endpoint, with another limit and another window.
abbrev other : ℕ → Call
other now = record { key = "b"; limit = 1; window_seconds = 7; now = now }

abbrev calls : List Call
calls =
    own 10
    ∷ own 61
    ∷ other 90
    ∷ own 61
    ∷ own 70
    ∷ other 5
    ∷ own 118
    ∷ own 119
    ∷ own 120
    ∷ own 500
    ∷ []

calls-InTurn : InTurn "a" 3 60 0 calls
calls-InTurn = ground arith

abbrev empty : Windows
empty = []

admitted_exact_example : admitted "a" 1 calls empty ≡ min 3 (calls_of "a" 1 calls)
admitted_exact_example = admitted_exact "a" 3 60 1 calls (omega arith) calls-InTurn

-- Five calls are made in window 1, and three are let through.
three_of_five : (admitted "a" 1 calls empty ≡ 3) × (calls_of "a" 1 calls ≡ 5)
unfolding admitted enforce
three_of_five = (refl, refl)

check-retry_after_bounds_example :
    (1 ≤ (check (some 7) "a" 2 60 119 empty).0.1) × ((check (some 7) "a" 2 60 119 empty).0.1 ≤ 60)
check-retry_after_bounds_example =
    check-retry_after_bounds (some 7) "a" 2 60 119 empty (omega arith)
