-- ===== src/Api.antt =====
-- source/api/onebot_11/api_impl.h: the JSON messages of the calls of the OneBot 11 interface.
pub mod Call
pub mod Messages
pub mod Groups
pub mod Queries
