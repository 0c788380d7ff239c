-- ===== src/Persistence/Session/Holds.antt =====
-- Sequencing of sessions (src/pinterest_mcp/persistence): a property of the store that the first
-- part establishes, on return and on a raise, and that the rest keeps.
use pinterest_mcp_docker.Common.{◌≡◌, refl}
use pinterest_mcp_docker.Persistence.Models.{Store}
use pinterest_mcp_docker.Persistence.Session.{Result, ok, err, Session, ◌>>=◌, continue}

module _ (P : Store → Type 0) where
  continue-Holds :
      {A B : Type 0} (r : Result A × Store) (f : A → Session B)
      → P r.1
      → ((a : A) (t : Store) → r ≡ (ok a, t) → P t → P (f a t).1)
      → P (continue r f).1
  continue-Holds (ok a, t) f p h = h a t refl p
  continue-Holds (err e, t) f p h = p

  pub bind-Holds :
      {A B : Type 0} (m : Session A) (f : A → Session B) (s : Store)
      → P (m s).1
      → ((a : A) (t : Store) → m s ≡ (ok a, t) → P t → P (f a t).1)
      → P ((m >>= f) s).1
  bind-Holds m f s p h = continue-Holds (m s) f p h
