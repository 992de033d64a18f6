-- ===== src/Domain/Accounts.antt =====
-- The accounts and sessions of internal/domain/identity.go.
use triovexa.Prelude.{String}
use triovexa.Domain.Times.{Time}

pub record User : Type 0 where
  pub id : String
  pub username : String
  pub password_hash : String
  pub role : String
  pub created_at : Time

pub record Session : Type 0 where
  pub token_hash : String
  pub user_id : String
  pub csrf_hash : String
  pub expires_at : Time
  pub created_at : Time
