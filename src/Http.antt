-- ===== src/Http.antt =====
-- external_src/HTTPMessage.cpp, HTTPParser.cpp and ParserContext.cpp: HTTP messages, and the callbacks
-- that build them from what the library http_parser finds in a stream.
pub mod Message
pub mod Context
pub mod Parser
