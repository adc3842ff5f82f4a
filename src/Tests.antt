-- ===== src/Tests.antt =====
-- Tests and examples, by the part that they are about.
mod Session
mod Wire
mod Router
mod RateLimit
mod Supervisor
mod Tokenizer
mod ClientId
mod Http
mod Json
mod Sse
