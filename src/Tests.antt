-- ===== src/Tests.antt =====
-- The theorems applied to concrete inputs, and small runs of the code.
mod Sealing
mod Storing
mod Serving
mod Trading
mod Crossing
mod Showing
mod Booking
mod Settlement
mod Running
mod Encoding
