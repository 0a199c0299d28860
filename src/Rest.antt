-- ===== src/Rest.antt =====
-- rest/index.js: the JSON gateway. A JavaScript string is the list of its UTF-16 code units.
pub mod Numeric
pub mod Hex
pub mod Json
pub mod Address
pub mod Gateway
pub mod HexLaws
pub mod GatewayLaws
pub mod Requests
pub mod Examples
