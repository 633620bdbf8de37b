-- ===== src/Auth.antt =====
-- src/auth: the CBOR reader, grants and what they allow, and the authorization of requests.
pub mod Action
pub mod Cbor
pub mod Claims
pub mod Grants
pub mod Tokens
pub mod Verifier
