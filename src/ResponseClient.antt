-- ===== src/ResponseClient.antt =====
-- src/ContentProcessorWorkflow/src/libs/agent_framework/azure_openai_response_retry.py: the client
-- of the language model that trims its messages and retries.
pub mod Truncate
pub mod Trim
pub mod Budget
pub mod Errors
pub mod Stream
pub mod Attempts
mod Tests
