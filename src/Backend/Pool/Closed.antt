-- ===== src/Backend/Pool/Closed.antt =====
-- A pool that was closed.
use kingshard.Prelude.{ℕ, ℤ, List, [], ◌∷◌, ◌≡◌, refl, Option, none, some, Bool, if_either}
use kingshard.Outcome.{Error}
use kingshard.Outcome.Error.{database_close}
use kingshard.Backend.Conn.{Server, Charsets, Conn}
use kingshard.Backend.Pool.{
  Db, offer_to, Pop, fails, pop_conn, push_conn, give_back, close_conn, close_conn_not_add,
  add_idle_conn, close_db,
}

abbrev pub IsClosed : Db → Type 0
IsClosed d = (d.cache_conns ≡ none) × (d.idle_conns ≡ none)

none_offered :
    (room : ℕ) (co : Conn) (o : Option (List Conn)) → o ≡ none → offer_to room co o ≡ none
unfolding offer_to
none_offered room co none e = refl
none_offered room co (some held) e = cc e

close_conn-IsClosed : (d : Db) (co : Option Conn) → IsClosed d → IsClosed (close_conn d co)
unfolding close_conn close_conn_not_add add_idle_conn
close_conn-IsClosed d (some co) (c, i) = (c, none_offered _ _ _ i)
close_conn-IsClosed d none (c, i) = (c, none_offered _ _ _ i)

push_conn-IsClosed :
    (now : ℤ) (d : Db) (co : Option Conn) (why : Option Error)
    → IsClosed d
    → IsClosed (push_conn now d co why)
unfolding push_conn add_idle_conn
push_conn-IsClosed now d none why (c, i) = (c, none_offered _ _ _ i)
push_conn-IsClosed now d (some co) why (c, i) = rw (c, push_conn) (c, i)

-- A connection that comes back, in one of the two ways.
pub data Return : Type 0 where
  pushed : ℤ → Option Conn → Option Error → Return
  closed : ℤ → Conn → Return

unfoldable pub returned : List Return → Db → Db
unfolding push_conn give_back
returned [] d = d
returned (pushed now co why ∷ rest) d = returned rest (push_conn now d co why)
returned (closed now co ∷ rest) d = returned rest (give_back now d co)

returned-IsClosed : (rs : List Return) (d : Db) → IsClosed d → IsClosed (returned rs d)
unfolding returned give_back
returned-IsClosed [] d c = c
returned-IsClosed (pushed now co why ∷ rs) d c =
    returned-IsClosed rs _ (push_conn-IsClosed now d co why c)
returned-IsClosed (closed now co ∷ rs) d c = returned-IsClosed rs _ (
    if_either IsClosed co.pkg_err _ _ (λ bad. close_conn-IsClosed d (some co) c)
      (λ fine. push_conn-IsClosed now d (some co) none c))

on_none :
    (o : Option (List Conn)) (x : Pop) (f : List Conn → Pop)
    → o ≡ none
    → elim o [ none ↦ x | some held ↦ f held ] ≡ x
on_none none x f e = refl
on_none (some held) x f e = cc e

-- After Close, however many connections come back to the pool, PopConn returns the error that the
-- database is closed, makes no request and leaves the pool as it is.
pub closed_refuses :
    (server : Server) (charsets : Charsets) (choice : Bool) (d : Db) (rs : List Return) (t : ℕ)
    → pop_conn server charsets choice (returned rs (close_db d)) t
      ≡ (fails database_close, returned rs (close_db d), t)
unfolding pop_conn close_db
closed_refuses server charsets choice d rs t =
    refused (returned rs (close_db d)) (returned-IsClosed rs (close_db d) (refl, refl))
  where
    refused :
        (d' : Db)
        → IsClosed d'
        → pop_conn server charsets choice d' t ≡ (fails database_close, d', t)
    refused d' (c, i) = on_none d'.cache_conns _ _ c
