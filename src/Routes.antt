-- ===== src/Routes.antt =====
-- app/api/routes: one function for each route, called once the user and the body are checked. The
-- response is made before the transaction ends, so a failure there rolls it back.
mod Responses
pub mod CampaignRoutes
pub mod WorkflowRoutes
pub mod ModerationRoutes
pub mod AccountRoutes
pub mod Unlocking
pub mod Listing
pub mod Evidence
unfoldable pub use Responses.*
