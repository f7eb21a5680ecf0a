-- ===== src/Udpr.antt =====
-- II year/computer-networks/project1/src: the sending of a text over UDP with retransmissions.
mod Wire
mod Client
mod Server
mod Sending
mod Answers
mod Receiving
mod Session
mod Connection
mod Rounds
mod Plain
mod Transfer
mod Tests
