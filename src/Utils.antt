-- ===== src/Utils.antt =====
-- shared/utils: what builds the fields of an event, and the conversions between the entities and
-- the messages.
pub mod Builder
pub mod Convert
pub mod Address
pub mod RoundTrip
mod Tests
