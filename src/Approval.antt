-- ===== src/Approval.antt =====
-- policylatch/approval.py: requests, responses, session grants and the terminal provider.
pub mod Grants
pub mod Response
pub mod Request
pub mod Provider
