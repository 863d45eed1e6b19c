-- ===== src/Orchestrator.antt =====
-- The orchestrator's chat service: its tables (orchestrator/db_repositories.py), the session
-- lifecycle (orchestrator/orchestrator_agent.py), the client of the claude command
-- (orchestrator/claude_sdk_client.py) and the service (orchestrator/orchestrator_service.py).
pub mod Tables
pub mod Agents
pub mod Instances
pub mod Chat
pub mod Logs
pub mod Session
pub mod Client
pub mod Service
pub mod Conversation
pub mod Start
