-- ===== src/Apiclient.antt =====
-- internal/apiclient: the types of the game's API, player tags, and the client with its errors.
pub mod Types
pub mod Tags
pub mod Times
pub mod Client
pub mod Laws
