-- ===== src/Contact.antt =====
-- runtime_v2/contact_policy.py: the rules under which a planned message may go out.
pub mod Quiet
pub mod Decision
pub mod Request
