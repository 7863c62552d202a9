-- ===== src/Providers.antt =====
-- Package providers: which provider a request is for, and its canonical form for each provider.
pub mod Registry
pub mod Shared
pub mod OpenAi
pub mod Azure
pub mod Anthropic
pub mod Gemini
pub mod Blind
pub mod Tests
