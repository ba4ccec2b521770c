-- ===== src/Tests.antt =====
-- Concrete inputs: packages that meet their interfaces, runs of the code, and each theorem at an
-- input where its hypotheses hold.
mod Codec
mod Samples
mod TenantTests
mod AuthTests
mod HubTests
mod ServerTests
mod ResolveTests
mod FolderTests
mod UserTests
mod ResetTests
mod AlertTests
mod TicketTests
mod AgentTests
mod AdminTests
mod SqlTests
