-- ===== src/Transformer.antt =====
-- Conversion between API formats (internal/transformer and internal/transformer/convert): the
-- handling of think tags and the stream from OpenAI Chat to Claude.
pub mod Context
pub mod ThinkTags
mod Tagged
mod Tests
mod Blocks
mod Chunks
mod Steps
mod Quiet
mod Delivered
mod Said
mod Partial
pub mod OpenAiStream
pub mod ResponsesStream
mod Deltas
