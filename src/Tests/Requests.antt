-- ===== src/Tests/Requests.antt =====
-- Requests to the shop's HTTP API at concrete inputs.
use order_lifecycle_backend.Prelude.{
  ℕ, ◌≡◌, refl, inl, inr, true, false, if◌then◌else◌, Option, none, some, List, [], ◌∷◌, arith,
  ◌==◌, Bool-cases, ==_sound,
}
use order_lifecycle_backend.Entities.{Order, completed, pending}
use order_lifecycle_backend.World.{
  RedisCommand, set, del, order_key, user_orders_key, one, many, value,
}
use order_lifecycle_backend.World.Harmless.{list_entries}
use order_lifecycle_backend.Auth.{AuthResult, user}
use order_lifecycle_backend.Auth.Http.{JwtPayload, authenticate}
use order_lifecycle_backend.Payment.Gateway.{charge}
use order_lifecycle_backend.Lifecycle.System.{Call, listing, creating, checking_out, run}
use order_lifecycle_backend.Lifecycle.Lists.{ListsAreFaithful}
use order_lifecycle_backend.Api.{
  uuid, natural, negative, Request, list_orders, check_out, set_cart_item, handle, serve,
  validate_cart_item, dispatch,
}
use order_lifecycle_backend.Api.Ownership.{shows_own, handle-shows_own}
use order_lifecycle_backend.Api.Quantities.{IsPositive}
use order_lifecycle_backend.Api.Quantities.Carts.{serve-IsPositive}
use order_lifecycle_backend.Tests.{platform, world, order}
use order_lifecycle_backend.Tests.Caching.{server, newest, deletes}
use mathlib.Core.List.{Memᴰ}

newest-list :
    (log : List RedisCommand) (u : ℕ) (os : List Order)
    → newest log (user_orders_key u) ≡ value (many os)
    → Memᴰ (u, os) (list_entries log)
newest-list [] u os e = cc
newest-list (set (user_orders_key v) (many ps) ttl ∷ log) u os e = elim (Bool-cases (v == u)) [
  | inl hit ↦ Memᴰ.head (ground (arith, ==_sound v u hit))
  | inr miss ↦ Memᴰ.tail (newest-list log u os (ground arith))
]
newest-list (set (user_orders_key v) (one o) ttl ∷ log) u os e = elim (Bool-cases (v == u)) [
  | inl hit ↦ absurd (ground arith)
  | inr miss ↦ newest-list log u os (ground arith)
]
newest-list (set (order_key i) v ttl ∷ log) u os e = newest-list log u os e
newest-list (del ks ∷ log) u os e = elim (Bool-cases (deletes ks (user_orders_key u))) [
  | inl hit ↦ absurd (ground arith)
  | inr miss ↦ newest-list log u os (ground arith)
]

server-ListsAreFaithful : ListsAreFaithful server
server-ListsAreFaithful now log u os e = newest-list log u os e

abbrev caller : JwtPayload
caller = record { sub = 7; role = user }

-- One token is good; the scheme is the word 1, the empty string is 0.
abbrev verify : ℕ → Option JwtPayload
verify token = if token == 5 then some caller else none

abbrev header : Option (List ℕ)
header = some (1 ∷ 5 ∷ [])

good_token : authenticate verify 1 0 header ≡ AuthResult.ok caller
unfolding authenticate
good_token = refl

abbrev history : List Call
history = listing 7 ∷ creating 8 [] ∷ checking_out 7 ∷ []

handle-shows_own_example :
    shows_own 7
      (handle server verify 1 0 header list_orders
        (run server charge history (world (order completed (some 20))))).0.body
    ≡ true
handle-shows_own_example =
    handle-shows_own server server-ListsAreFaithful charge history
      (world (order completed (some 20))) refl verify 1 0 header caller good_token list_orders

abbrev minus_three : Request
minus_three =
    set_cart_item (record { product_id = uuid 5; quantity = negative 2; has_more = false })

abbrev two_pens : Request
two_pens = set_cart_item (record { product_id = uuid 5; quantity = natural 2; has_more = false })

abbrev requests : List (Option (List ℕ) × Request)
requests =
    (header, minus_three) ∷ (header, two_pens) ∷ (header, check_out) ∷ (none, list_orders) ∷ []

empty-IsPositive : IsPositive (world (order pending none)).db
empty-IsPositive = record { cart_lines = refl; order_lines = refl; events = refl }

serve-IsPositive_example :
    IsPositive (serve platform verify 1 0 requests (world (order pending none))).db
serve-IsPositive_example =
    serve-IsPositive platform verify 1 0 requests (world (order pending none)) empty-IsPositive

refused : (dispatch platform 7 minus_three (world (order pending none))).0.status ≡ 400
unfolding dispatch validate_cart_item
refused = refl
