-- ===== src/Api/Hidden.antt =====
-- What a user learns of someone else's instance (services/main-api/internal/api/user_instances.go).
use hybrid_cloud_with_claude.Prelude.{
  ℕ, ◌≡◌, refl, false, String, some, none, List, [], ◌∷◌, find_where, delete_where, arith,
}
use hybrid_cloud_with_claude.Schema.{Instance}
use hybrid_cloud_with_claude.Store.{World, statement}
use hybrid_cloud_with_claude.Instance.Queries.{has_id, get_instance}
use hybrid_cloud_with_claude.Instance.Repo.{get}
use hybrid_cloud_with_claude.Api.View.{Codec, Dispatcher}
use hybrid_cloud_with_claude.Api.Owner.{owns_instance, get_own, delete_own}

-- The world in which nobody has the instance.
abbrev pub without : ℕ → World → World
without id w = record w { db = record w.db { instances = delete_where (has_id id) w.db.instances } }

not_found :
    (id : ℕ) (rows : List Instance) → find_where (has_id id) (delete_where (has_id id) rows) ≡ none
not_found id [] = refl
not_found id (i ∷ rows) = ground (arith, not_found id rows)

-- A request of a user for an instance of someone else, or of nobody, gets the reply that it would get if
-- there were no such instance, whether the connection works or not: to read it, and to delete it. And no
-- table changes.
pub foreign_hidden :
    (codec : Codec) (dispatcher : Dispatcher) (user : ℕ) (id_text : String) (id : ℕ)
    (inst : Instance) (w : World)
    → codec.parse_uuid id_text ≡ some id
    → find_where (has_id id) w.db.instances ≡ some inst
    → owns_instance inst user ≡ false
    → ((get_own codec dispatcher user id_text w).0
        ≡ (get_own codec dispatcher user id_text (without id w)).0)
      × ((delete_own codec dispatcher user id_text w).0
          ≡ (delete_own codec dispatcher user id_text (without id w)).0)
      × ((get_own codec dispatcher user id_text w).1.db ≡ w.db)
      × ((delete_own codec dispatcher user id_text w).1.db ≡ w.db)
unfolding get_own delete_own get get_instance statement
foreign_hidden codec dispatcher user id_text id inst w parsed found foreign = (
  ground (arith, not_found id w.db.instances),
  ground (arith, not_found id w.db.instances),
  ground arith,
  ground arith,
)
