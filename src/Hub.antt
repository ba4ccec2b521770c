-- ===== src/Hub.antt =====
-- The hub between browsers and agents: the module-level dictionaries of
-- Backend/app/ws/client_handler.py, Backend/app/ws/agent_handler.py and
-- Backend/app/services/command_bridge.py. A websocket is a number, its identity.
pub mod Watch
pub mod Streams
pub mod Bridge
pub mod Agents
pub mod Client
