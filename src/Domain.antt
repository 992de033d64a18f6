-- ===== src/Domain.antt =====
-- internal/domain: the records that the services and the store exchange.
-- A time.Time is a number of nanoseconds with 0 for the zero time, and so is a time.Duration.
mod Times
mod Snapshots
mod Incidents
mod Actions
mod Records
mod Accounts
unfoldable pub use Times.*
unfoldable pub use Snapshots.*
unfoldable pub use Incidents.*
unfoldable pub use Actions.*
unfoldable pub use Records.*
unfoldable pub use Accounts.*
